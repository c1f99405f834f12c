-- ===== src/Net/TcpServer/System/Counting.antt =====
-- How often a name is in the map and among the removals.
use lib_net_toy.Net.TcpServer.{Request, establish, destroy, Connection, Entry, put, erase, same_key}
use lib_net_toy.Net.TcpServer.Names.{same_key-eq}
use lib_net_toy.Prelude.{
  ℕ, suc, ◌+◌, ◌≤◌, ◌≡◌, ◌≢◌, inl, inr, false, List, [], ◌∷◌, ◌++◌, arith, if◌then◌else◌,
  Bool-cases,
}

abbrev pub entries_of : List ℕ → List Entry → ℕ
entries_of n [] = 0
entries_of n (e ∷ es) = if same_key e.key n then suc (entries_of n es) else entries_of n es

abbrev pub removals_of : List ℕ → List Connection → ℕ
removals_of n [] = 0
removals_of n (c ∷ cs) = if same_key c.name n then suc (removals_of n cs) else removals_of n cs

-- How many calls of `connectEstablished` are posted for the name.
abbrev pub establishes_of : List ℕ → List Request → ℕ
establishes_of n [] = 0
establishes_of n (establish c ∷ rs) =
    if same_key c.name n then suc (establishes_of n rs) else establishes_of n rs
establishes_of n (destroy c ∷ rs) = establishes_of n rs

pub establishes_of-append :
    (n : List ℕ) (xs ys : List Request)
    → establishes_of n (xs ++ ys) ≡ establishes_of n xs + establishes_of n ys
establishes_of-append n [] ys = omega arith
establishes_of-append n (establish c ∷ xs) ys = ground (arith, establishes_of-append n xs ys)
establishes_of-append n (destroy c ∷ xs) ys = establishes_of-append n xs ys

-- One in the middle.
pub establishes_of_middle :
    (n : List ℕ) (xs ys : List Request) (r : Request)
    → establishes_of n (xs ++ r ∷ ys) ≡ establishes_of n (xs ++ ys) + establishes_of n (r ∷ [])
establishes_of_middle n xs ys (establish c) =
    ground (arith, establishes_of-append n xs (establish c ∷ ys), establishes_of-append n xs ys)
establishes_of_middle n xs ys (destroy c) =
    omega (arith, establishes_of-append n xs (destroy c ∷ ys), establishes_of-append n xs ys)

pub removals_of-append :
    (n : List ℕ) (xs ys : List Connection)
    → removals_of n (xs ++ ys) ≡ removals_of n xs + removals_of n ys
removals_of-append n [] ys = omega arith
removals_of-append n (x ∷ xs) ys = ground (arith, removals_of-append n xs ys)

-- One in the middle.
pub removals_of_middle :
    (n : List ℕ) (xs ys : List Connection) (c : Connection)
    → removals_of n (xs ++ c ∷ ys) ≡ removals_of n (xs ++ ys) + (if same_key c.name n then 1 else 0)
removals_of_middle n xs ys c =
    ground (arith, removals_of-append n xs (c ∷ ys), removals_of-append n xs ys)

pub entries_of-put :
    (n k : List ℕ) (c : Connection) (es : List Entry)
    → entries_of k es ≡ 0
    → entries_of n (put k c es) ≡ entries_of n es + (if same_key k n then 1 else 0)
unfolding put
entries_of-put n k c [] h = ground arith
entries_of-put n k c (e ∷ es) h = ground (arith, entries_of-put n k c es)

pub entries_of-erase :
    (n k : List ℕ) (es : List Entry)
    → 1 ≤ entries_of k es
    → entries_of n (erase k es).0 + (if same_key k n then 1 else 0) ≡ entries_of n es
unfolding erase
entries_of-erase n k [] h = absurd (omega arith)
entries_of-erase n k (e ∷ es) h = elim (Bool-cases (same_key e.key k)) [
  | inl same ↦ rw same (rw (same_key-eq e.key k same) (ground arith))
  | inr other ↦ ground (arith, other, entries_of-erase n k es)
]

pub erase_one : (k : List ℕ) (es : List Entry) → 1 ≤ entries_of k es → (erase k es).1 ≡ 1
unfolding erase
erase_one k [] h = absurd (omega arith)
erase_one k (e ∷ es) h = ground (arith, erase_one k es)

-- Two names are one key only if they are equal.
pub same_key_ne : (k n : List ℕ) → k ≢ n → same_key k n ≡ false
same_key_ne k n h = elim (Bool-cases (same_key k n)) [
  | inl same ↦ absurd (h (same_key-eq k n same))
  | inr other ↦ other
]
