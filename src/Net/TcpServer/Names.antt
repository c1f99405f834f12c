-- ===== src/Net/TcpServer/Names.antt =====
-- The map of connections: its keys are names with a number each, so that a new one is never there.
use lib_net_toy.Prelude.{
  append-injective, ℕ, ◌+◌, ◌<◌, ◌≡◌, refl, sym, ◌∙◌, inl, inr, true, none, some, List, [], ◌∷◌,
  arith, Bool-cases,
}
use lib_net_toy.Net.TcpServer.{key_before, Connection, put, erase, Entry, conn_name, same_key, find}
use lib_net_toy.Prelude.Decimal.{decimal, decimal-injective}

pub same_key_refl : (k : List ℕ) → same_key k k ≡ true
unfolding same_key
same_key_refl [] = refl
same_key_refl (x ∷ xs) = ground (arith, same_key_refl xs)

pub same_key-eq : (k l : List ℕ) → same_key k l ≡ true → k ≡ l
unfolding same_key
same_key-eq [] [] h = refl
same_key-eq [] (y ∷ ys) h = cc
same_key-eq (x ∷ xs) [] h = cc
same_key-eq (x ∷ xs) (y ∷ ys) h = ground (arith, same_key-eq xs ys)

pub find-put : (k : List ℕ) (c : Connection) (es : List Entry) → find k (put k c es) ≡ some c
unfolding find put
find-put k c [] = ground (arith, same_key_refl k)
find-put k c (e ∷ es) = ground (arith, same_key_refl k, find-put k c es)

-- What is put in under a new key is all that an erase takes out.
pub erase-put :
    (k : List ℕ) (c : Connection) (es : List Entry)
    → find k es ≡ none
    → erase k (put k c es) ≡ (es, 1)
unfolding find put erase
erase-put k c [] h = ground (arith, same_key_refl k)
erase-put k c (e ∷ es) h = ground (arith, same_key_refl k, erase-put k c es)

pub erase-none : (k : List ℕ) (es : List Entry) → find k es ≡ none → erase k es ≡ (es, 0)
unfolding find erase
erase-none k [] h = refl
erase-none k (e ∷ es) h = ground (arith, erase-none k es)

-- Every key is a name made from the number of an earlier connection.
abbrev pub AllNamed : List ℕ → List ℕ → ℕ → List Entry → Type 0
AllNamed name ip_port n [] = Unit {0}
AllNamed name ip_port n (e ∷ es) =
    ((id : ℕ) × (id < n) × (e.key ≡ conn_name name ip_port id)) × AllNamed name ip_port n es

pub AllNamed-suc :
    (name ip_port : List ℕ) (n : ℕ) (es : List Entry)
    → AllNamed name ip_port n es
    → AllNamed name ip_port (n + 1) es
AllNamed-suc name ip_port n [] a = tt
AllNamed-suc name ip_port n (e ∷ es) ((id, lt, k), a) =
    ((id, omega arith, k), AllNamed-suc name ip_port n es a)

pub put-AllNamed :
    (name ip_port : List ℕ) (n id : ℕ) (c : Connection) (es : List Entry)
    → id < n
    → AllNamed name ip_port n es
    → AllNamed name ip_port n (put (conn_name name ip_port id) c es)
unfolding put
put-AllNamed name ip_port n id c [] lt a = ((id, lt, refl), tt)
put-AllNamed name ip_port n id c (e ∷ es) lt a =
    elim (Bool-cases (same_key e.key (conn_name name ip_port id))) [
      | inl same ↦ rw same ((id, lt, refl), a.1)
      | inr other ↦ rw other (elim (Bool-cases (key_before (conn_name name ip_port id) e.key)) [
        | inl first ↦ rw first ((id, lt, refl), a)
        | inr later ↦ rw later (a.0, put-AllNamed name ip_port n id c es lt a.1)
      ])
    ]

pub erase-AllNamed :
    (name ip_port : List ℕ) (n : ℕ) (k : List ℕ) (es : List Entry)
    → AllNamed name ip_port n es
    → AllNamed name ip_port n (erase k es).0
unfolding erase
erase-AllNamed name ip_port n k [] a = tt
erase-AllNamed name ip_port n k (e ∷ es) a = elim (Bool-cases (same_key e.key k)) [
  | inl same ↦ rw same a.1
  | inr other ↦ rw other (a.0, erase-AllNamed name ip_port n k es a.1)
]

pub conn_name-injective :
    (name ip_port : List ℕ) (i j : ℕ) → conn_name name ip_port i ≡ conn_name name ip_port j → i ≡ j
conn_name-injective name ip_port i j e =
    let tails : 35 ∷ decimal i ≡ 35 ∷ decimal j =
      append-injective ip_port (append-injective name e) in
    decimal-injective i j (ground (arith, tails))

-- The next name is new.
pub find-next :
    (name ip_port : List ℕ) (n : ℕ) (es : List Entry)
    → AllNamed name ip_port n es
    → find (conn_name name ip_port n) es ≡ none
unfolding find
find-next name ip_port n [] a = refl
find-next name ip_port n (e ∷ es) ((id, lt, k), a) =
    elim (Bool-cases (same_key e.key (conn_name name ip_port n))) [
      | inl same ↦ absurd (
          let eq = conn_name-injective name ip_port id n (sym k ∙ same_key-eq e.key _ same) in
          omega arith)
      | inr other ↦ rw other (find-next name ip_port n es a)
    ]
