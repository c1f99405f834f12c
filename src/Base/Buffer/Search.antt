-- ===== src/Base/Buffer/Search.antt =====
-- `findCRLF` and `findEOL` of Buffer.h: the first line end in the readable bytes.
use lib_net_toy.Prelude.{
  length-slice, drop-slice, Bool-cases, ℕ, zero, suc, ◌+◌, ◌-◌, ◌≤◌, ◌<◌, ◌≡◌, ◌≢◌, refl, ap, ◌⊎◌,
  inl, inr, Bool, true, false, ◌&&◌, List, [], ◌∷◌, length, slice, take, drop, leb, ◌==◌,
  if◌then◌else◌, Option, none, some, Result, ok, ◌>>◌, assert, arith,
}
use mathlib.Core.Option
use lib_net_toy.Prelude.Size.{sub_size}
use lib_net_toy.Base.Buffer.{Buffer, readable_bytes, peek, begin_write}
use lib_net_toy.Base.Buffer.IsValid.{IsValid, content, readable_bytes_lem}

-- `kCRLF`
abbrev pub k_crlf : List ℕ
k_crlf = 13 ∷ 10 ∷ []

-- Whether the range begins with the pattern.
unfoldable pub begins_with : List ℕ → List ℕ → Bool
begins_with xs [] = true
begins_with [] (p ∷ ps) = false
begins_with (x ∷ xs) (p ∷ ps) = x == p && begins_with xs ps

-- `std::search`: the offset of the first match, or the length of the range.
unfoldable pub search_first : List ℕ → List ℕ → ℕ
unfolding begins_with
search_first [] ps = 0
search_first (x ∷ xs) ps = if begins_with (x ∷ xs) ps then 0 else suc (search_first xs ps)

-- `memchr`: the offset of the first such byte.
unfoldable pub memchr : List ℕ → ℕ → Option ℕ
memchr [] c = none
memchr (x ∷ xs) c = if x == c then some 0 else Option.map suc (memchr xs c)

-- Both overloads of `findCRLF`; the result is an offset from `begin()`, or NULL.
unfoldable pub find_crlf : Buffer → Option ℕ
find_crlf b =
    let crlf =
      peek b + search_first (slice b.buffer (peek b) (sub_size (begin_write b) (peek b))) k_crlf in
    if crlf == begin_write b then none else some crlf

unfoldable pub find_crlf_from : Buffer → ℕ → Result (Option ℕ)
find_crlf_from b start = do
  assert (leb (peek b) start)
  assert (leb start (begin_write b))
  let crlf = start + search_first (slice b.buffer start (sub_size (begin_write b) start)) k_crlf
  ok (if crlf == begin_write b then none else some crlf)

unfoldable pub find_eol : Buffer → Option ℕ
find_eol b = Option.map (λ i. peek b + i) (memchr (slice b.buffer (peek b) (readable_bytes b)) 10)

unfoldable pub find_eol_from : Buffer → ℕ → Result (Option ℕ)
find_eol_from b start = do
  assert (leb (peek b) start)
  assert (leb start (begin_write b))
  ok (
      Option.map (λ i. start + i)
        (memchr (slice b.buffer start (sub_size (begin_write b) start)) 10))

-- `xs` has the pattern nowhere in front of index `i`.
abbrev pub NoneBelow : List ℕ → List ℕ → ℕ → Type 0
NoneBelow xs ps i = (j : ℕ) → j < i → slice xs j (length ps) ≢ ps

-- The pattern stands at index `i` and nowhere in front of it, or nowhere at all.
abbrev pub FirstAt : List ℕ → List ℕ → Option ℕ → Type 0
FirstAt xs ps none = (j : ℕ) → slice xs j (length ps) ≢ ps
FirstAt xs ps (some i) = (i < length xs) × (slice xs i (length ps) ≡ ps) × NoneBelow xs ps i

begins_with-true : (xs ps : List ℕ) → begins_with xs ps ≡ true → take (length ps) xs ≡ ps
unfolding begins_with
begins_with-true xs [] h = refl
begins_with-true [] (p ∷ ps) h = cc
begins_with-true (x ∷ xs) (p ∷ ps) h = ground (arith, begins_with-true xs ps)

begins_with-false : (xs ps : List ℕ) → begins_with xs ps ≡ false → take (length ps) xs ≢ ps
unfolding begins_with
begins_with-false xs [] h e = cc
begins_with-false [] (p ∷ ps) h e = cc
begins_with-false (x ∷ xs) (p ∷ ps) h e = ground (arith, begins_with-false xs ps)

slice-nil : (ps : List ℕ) (j : ℕ) → ps ≢ [] → slice [] j (length ps) ≢ ps
slice-nil [] j h e = h refl
slice-nil (p ∷ ps) zero h e = cc
slice-nil (p ∷ ps) (suc j) h e = cc

NoneBelow-cons :
    (x : ℕ) (xs ps : List ℕ) (i : ℕ)
    → begins_with (x ∷ xs) ps ≡ false
    → NoneBelow xs ps i
    → NoneBelow (x ∷ xs) ps (suc i)
NoneBelow-cons x xs ps i miss h zero lt = begins_with-false (x ∷ xs) ps miss
NoneBelow-cons x xs ps i miss h (suc j) lt = h j (omega arith)

-- What `std::search` returns is the first match, or the end of the range.
search_first_lem :
    (xs ps : List ℕ)
    → ps ≢ []
    → ((search_first xs ps ≡ length xs) × FirstAt xs ps none)
      ⊎ FirstAt xs ps (some (search_first xs ps))
unfolding search_first
search_first_lem [] ps h = inl (refl, λ j. slice-nil ps j h)
search_first_lem (x ∷ xs) ps h = elim (Bool-cases (begins_with (x ∷ xs) ps)) [
  | inl hit ↦
      rw hit (inr (omega arith, begins_with-true (x ∷ xs) ps hit, λ j lt. absurd (omega arith)))
  | inr miss ↦ rw miss (elim (search_first_lem xs ps h) [
    | inl (e, n) ↦
        inl (ap suc e, λ j. NoneBelow-cons x xs ps (suc j) miss (λ k _. n k) j (omega arith))
    | inr (lt, e, n) ↦ inr (omega arith, e, NoneBelow-cons x xs ps (search_first xs ps) miss n)
  ])
]

FirstAt-cons :
    (x : ℕ) (xs ps : List ℕ) (r : Option ℕ)
    → begins_with (x ∷ xs) ps ≡ false
    → FirstAt xs ps r
    → FirstAt (x ∷ xs) ps (Option.map suc r)
FirstAt-cons x xs ps none miss f =
    λ j. NoneBelow-cons x xs ps (suc j) miss (λ k _. f k) j (omega arith)
FirstAt-cons x xs ps (some i) miss (lt, e, n) = (omega arith, e, NoneBelow-cons x xs ps i miss n)

memchr_lem : (xs : List ℕ) (c : ℕ) → FirstAt xs (c ∷ []) (memchr xs c)
unfolding memchr begins_with
memchr_lem [] c = λ j. slice-nil (c ∷ []) j (λ e. cc)
memchr_lem (x ∷ xs) c = elim (Bool-cases (x == c)) [
  | inl hit ↦ rw hit (omega arith, ap (λ d. d ∷ []) (ground arith), λ j lt. absurd (omega arith))
  | inr miss ↦ rw miss (FirstAt-cons x xs (c ∷ []) (memchr xs c) (ground arith) (memchr_lem xs c))
]

-- `findCRLF` finds the first CR LF of the readable bytes, and NULL only where there is none.
pub find_crlf_lem :
    {b : Buffer}
    → IsValid b
    → ((find_crlf b ≡ none) × FirstAt (content b) k_crlf none)
      ⊎ ((i : ℕ) × (find_crlf b ≡ some (b.reader_index + i)) × FirstAt (content b) k_crlf (some i))
unfolding find_crlf
find_crlf_lem {b} v = elim (search_first_lem (content b) k_crlf (λ e. cc)) [
  | inl (e, n) ↦ inl (ground (arith, readable_bytes_lem v), n)
  | inr f ↦ inr (search_first (content b) k_crlf, ground (arith, readable_bytes_lem v, f.0), f)
]

-- The readable bytes from the `k`th on, as `findCRLF(start)` reads them.
abbrev behind : Buffer → ℕ → List ℕ
behind b k = slice b.buffer (b.reader_index + k) (sub_size b.writer_index (b.reader_index + k))

-- The same from a pointer into the readable bytes on, whose offset is `k`.
pub find_crlf_from_lem :
    {b : Buffer} (k : ℕ)
    → IsValid b
    → k ≤ length (content b)
    → (r : Option ℕ) × (find_crlf_from b (b.reader_index + k)
        ≡ ok (Option.map (λ i. b.reader_index + k + i) r))
      × FirstAt (drop k (content b)) k_crlf r
unfolding find_crlf_from
find_crlf_from_lem {b} k v h = rw same (elim (search_first_lem (behind b k) k_crlf (λ e. cc)) [
  | inl (e, n) ↦ (none, ground (arith, readable_bytes_lem v, size), n)
  | inr f ↦
      (some (search_first (behind b k) k_crlf), ground (arith, readable_bytes_lem v, size, f.0), f)
])
  where
    same : drop k (content b) ≡ behind b k
    same =
        drop-slice b.buffer b.reader_index (b.writer_index - b.reader_index) k (b.reader_index + k)
          (sub_size b.writer_index (b.reader_index + k)) refl (ground (arith, readable_bytes_lem v))

    size : length (behind b k) ≡ sub_size b.writer_index (b.reader_index + k)
    size =
        length-slice b.buffer (b.reader_index + k) (sub_size b.writer_index (b.reader_index + k))
          (ground (arith, readable_bytes_lem v))

-- `findEOL` finds the first LF of the readable bytes, and NULL only where there is none.
pub find_eol_lem :
    {b : Buffer}
    → IsValid b
    → (r : Option ℕ) × (find_eol b ≡ Option.map (λ i. b.reader_index + i) r)
      × FirstAt (content b) (10 ∷ []) r
unfolding find_eol
find_eol_lem {b} v =
    (memchr (content b) 10, ground (arith, readable_bytes_lem v), memchr_lem (content b) 10)
