-- ===== src/Base/StringPiece/Tests.antt =====
-- Pieces of one object, and the theorems applied to them.
use lib_net_toy.Base.StringPiece.Comparing.{comparisons_agree, sign, chars, IsPiece}
use lib_net_toy.Base.StringPiece.{
  compare_pieces, not_equal, greater_equal, greater, less_equal, equal, remove_suffix, of_c_string,
  StringPiece, less, memcmp, strlen,
}
use lib_net_toy.Base.StringPiece.Lex.{is_same, is_after, lex, is_before}
use lib_net_toy.Prelude.Int.{pos, ℤ}
use lib_net_toy.Prelude.{
  read_range, ℕ, ◌≡◌, refl, true, not, List, [], ◌∷◌, arith, out_of_range, ok, fault, ◌>>=◌,
}

-- `hello help` and a NUL
abbrev text : List ℕ
text = 104 ∷ 101 ∷ 108 ∷ 108 ∷ 111 ∷ 32 ∷ 104 ∷ 101 ∷ 108 ∷ 112 ∷ 0 ∷ []

abbrev hello : StringPiece
hello = record { block = text; ptr = 0; len = pos 5 }

abbrev help : StringPiece
help = record { block = text; ptr = 6; len = pos 4 }

abbrev hel : StringPiece
hel = record { block = text; ptr = 6; len = pos 3 }

hello-IsPiece : IsPiece hello 5
hello-IsPiece = record { its_len = refl; inside = ground arith }

help-IsPiece : IsPiece help 4
help-IsPiece = record { its_len = refl; inside = ground arith }

hel-IsPiece : IsPiece hel 3
hel-IsPiece = record { its_len = refl; inside = ground arith }

of_c_string_test : of_c_string text 6 ≡ ok help
unfolding of_c_string strlen
of_c_string_test = refl

less_test : less hello help ≡ ok true
unfolding less memcmp read_range
less_test = refl

hel_test : less hel hello ≡ ok true
unfolding less memcmp read_range
hel_test = refl

-- More than the length is taken away: the length is negative, and a comparison reads past the end.
remove_too_much : (remove_suffix hel (pos 5) >>= λ x. equal x x) ≡ fault out_of_range
unfolding remove_suffix equal memcmp read_range
remove_too_much = refl

comparisons_agree_example :
    (less hello help ≡ ok (is_before (lex (chars hello) (chars help))))
    × (less_equal hello help ≡ ok (not (is_after (lex (chars hello) (chars help)))))
    × (greater hello help ≡ ok (is_after (lex (chars hello) (chars help))))
    × (greater_equal hello help ≡ ok (not (is_before (lex (chars hello) (chars help)))))
    × (equal hello help ≡ ok (is_same (lex (chars hello) (chars help))))
    × (not_equal hello help ≡ ok (not (is_same (lex (chars hello) (chars help)))))
    × ((r : ℤ) × (compare_pieces hello help ≡ ok r) × (sign r ≡ lex (chars hello) (chars help)))
comparisons_agree_example = comparisons_agree hello help 5 4 hello-IsPiece help-IsPiece
