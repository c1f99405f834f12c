-- ===== src/Net/TcpClient/Names.antt =====
-- The names of a client's connections, which 31 characters are cut to.
use lib_net_toy.Prelude.{
  ℕ, ◌+◌, ◌≤◌, ◌≡◌, sym, ap, ◌∙◌, ◌≢◌, List, [], ◌∷◌, ◌++◌, append_assoc, arith, length, take,
  append-injective, take-append_le, length-append, take_all,
}
use lib_net_toy.Net.TcpClient.{conn_name}
use lib_net_toy.Prelude.Decimal.{decimal, decimal-injective}

whole_name :
    (name peer : List ℕ) (id : ℕ)
    → length peer + length (decimal id) ≤ 29
    → conn_name name peer id ≡ name ++ (58 ∷ (peer ++ (35 ∷ decimal id)))
whole_name name peer id h =
    ap (λ xs. name ++ xs)
      (take_all 31 (58 ∷ (peer ++ (35 ∷ decimal id)))
        (omega (arith, length-append peer (35 ∷ decimal id))))

-- A short peer address leaves room for the number, and different numbers give different names.
pub short_names_differ :
    (name peer : List ℕ) (i j : ℕ)
    → length peer + length (decimal i) ≤ 29
    → length peer + length (decimal j) ≤ 29
    → i ≢ j
    → conn_name name peer i ≢ conn_name name peer j
short_names_differ name peer i j h k d e = d (
    let whole : name ++ (58 ∷ (peer ++ (35 ∷ decimal i)))
        ≡ name ++ (58 ∷ (peer ++ (35 ∷ decimal j))) =
      sym (whole_name name peer i h) ∙ e ∙ whole_name name peer j k in
    let tails : peer ++ (35 ∷ decimal i) ≡ peer ++ (35 ∷ decimal j) =
      cc (append-injective name whole) in
    decimal-injective i j (cc (append-injective peer tails)))

-- The flaw: a peer text of 29 characters or more, such as a full address of version 6, fills the
-- buffer, and all connections to it get one name.
pub long_names_agree :
    (name peer : List ℕ) (i j : ℕ)
    → 29 ≤ length peer
    → conn_name name peer i ≡ conn_name name peer j
long_names_agree name peer i j h = ap (λ xs. name ++ xs) (cut i ∙ sym (cut j))
  where
    cut : (id : ℕ) → take 31 (58 ∷ (peer ++ (35 ∷ decimal id))) ≡ take 31 ((58 ∷ peer) ++ 35 ∷ [])
    cut id =
        ap (take 31) (sym (append_assoc (58 ∷ peer) (35 ∷ []) (decimal id)))
        ∙ take-append_le 31 ((58 ∷ peer) ++ 35 ∷ []) (decimal id)
            (omega (arith, length-append (58 ∷ peer) (35 ∷ [])))
