-- ===== src/Value/Lists.antt =====
-- `Values` is a list of values that can stand inside a value.
use gocubrid.Prelude.{ℕ, suc, ◌≡◌, refl, ap, List, [], ◌∷◌, length}
use gocubrid.Value.{Value, Values, nil, cons}

unfoldable pub to_list : Values → List Value
to_list nil = []
to_list (cons v vs) = v ∷ to_list vs

unfoldable pub of_list : List Value → Values
of_list [] = nil
of_list (v ∷ vs) = cons v (of_list vs)

abbrev pub size : Values → ℕ
size nil = 0
size (cons v vs) = suc (size vs)

pub of_list-to_list : (vs : Values) → of_list (to_list vs) ≡ vs
unfolding of_list to_list
of_list-to_list nil = refl
of_list-to_list (cons v vs) = ap (cons v) (of_list-to_list vs)

pub to_list-of_list : (vs : List Value) → to_list (of_list vs) ≡ vs
unfolding of_list to_list
to_list-of_list [] = refl
to_list-of_list (v ∷ vs) = ap (λ t. v ∷ t) (to_list-of_list vs)

pub length-to_list : (vs : Values) → length (to_list vs) ≡ size vs
unfolding to_list
length-to_list nil = refl
length-to_list (cons v vs) = ap suc (length-to_list vs)
