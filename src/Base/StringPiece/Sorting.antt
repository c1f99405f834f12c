-- ===== src/Base/StringPiece/Sorting.antt =====
-- `operator<` as the order of a sorted container.
use lib_net_toy.Base.StringPiece.Lex.{
  lex-same, reversed, Order-cases, lex-reversed, lex_trans, lex_refl, Order, is_before, lex, before,
  same,
}
use lib_net_toy.Base.StringPiece.Comparing.{comparisons_agree, chars, IsPiece}
use lib_net_toy.Base.StringPiece.{less, StringPiece}
use lib_net_toy.Prelude.{ℕ, ◌≡◌, sym, ap, ◌∙◌, ◌≢◌, ◌⊎◌, inl, inr, true, false, arith, ok}

before_of_less :
    (x y : StringPiece) (m n : ℕ)
    → IsPiece x m
    → IsPiece y n
    → less x y ≡ ok true
    → lex (chars x) (chars y) ≡ before
before_of_less x y m n v w p = let e = (comparisons_agree x y m n v w).0 in ground (arith, e)

-- `operator<` is transitive.
pub less_trans :
    (x y z : StringPiece) (m n k : ℕ)
    → IsPiece x m
    → IsPiece y n
    → IsPiece z k
    → less x y ≡ ok true
    → less y z ≡ ok true
    → less x z ≡ ok true
less_trans x y z m n k u v w p q =
    (comparisons_agree x z m k u w).0
    ∙ ap (λ o. ok (is_before o))
        (lex_trans (chars x) (chars y) (chars z) (before_of_less x y m n u v p)
          (before_of_less y z n k v w q))

-- Of two pieces exactly one comes first, or they hold the same bytes.
pub less_or_equal :
    (x y : StringPiece) (m n : ℕ)
    → IsPiece x m
    → IsPiece y n
    → ((less x y ≡ ok true) × (less y x ≡ ok false) × (chars x ≢ chars y))
      ⊎ ((less y x ≡ ok true) × (less x y ≡ ok false) × (chars x ≢ chars y))
      ⊎ ((less x y ≡ ok false) × (less y x ≡ ok false) × (chars x ≡ chars y))
less_or_equal x y m n v w =
    let e = (comparisons_agree x y m n v w).0 in
    let e' = (comparisons_agree y x n m w v).0 in
    let r = lex-reversed (chars x) (chars y) in
    elim (Order-cases (lex (chars x) (chars y))) [
      | inl b ↦ inl (
        e ∙ ap (λ o. ok (is_before o)) b,
        e' ∙ ap (λ o. ok (is_before o)) (r ∙ ap reversed b),
        differ b (λ h. cc),
      )
      | inr (inl s) ↦ inr (
          inr (
            e ∙ ap (λ o. ok (is_before o)) s,
            e' ∙ ap (λ o. ok (is_before o)) (r ∙ ap reversed s),
            lex-same (chars x) (chars y) s,
          ))
      | inr (inr a) ↦ inr (
          inl (
            e' ∙ ap (λ o. ok (is_before o)) (r ∙ ap reversed a),
            e ∙ ap (λ o. ok (is_before o)) a,
            differ a (λ h. cc),
          ))
    ]
  where
    differ : {o : Order} → lex (chars x) (chars y) ≡ o → o ≢ same → chars x ≢ chars y
    differ l ne eq = ne (sym l ∙ ap (lex (chars x)) (sym eq) ∙ lex_refl (chars x))
