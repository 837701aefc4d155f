-- ===== src/Session/Stmt/OutParams.antt =====
-- The OUT parameters of a CALL: markers, modes and the values that come back.
use gocubrid.Prelude.{
  ℕ, zero, suc, ℤ, pos, ◌+◌, ◌-◌, ◌<◌, ◌≡◌, refl, ap, ◌∙◌, sym, ◌&&◌, Bool, true, false, not, List,
  [], ◌∷◌, length, set, get_or, length-replicate, Option, none, some, ltb, pos_part, if◌then◌else◌,
  arith,
}
use gocubrid.Exec.{Result, is_ok}
use gocubrid.Value.{Value}
use gocubrid.Session.Stmt.{
  Stmt, is_call, out_flags, made_flags, register_out_param, param_modes, modes_from, mode,
}

-- The flags, once made, have one entry for each parameter.
abbrev pub HasFlags : Stmt → Type 0
HasFlags s = (flags : List Bool) → s.out_params ≡ some flags → length flags ≡ s.param_count

length-set {ℓ} : {A : Type ℓ} (xs : List A) (i : ℕ) (v : A) → length (set xs i v) ≡ length xs
length-set [] i v = refl
length-set (x ∷ xs) zero v = refl
length-set (x ∷ xs) (suc i) v = ap suc (length-set xs i v)

get_or-set_same {ℓ} :
    {A : Type ℓ} (xs : List A) (i : ℕ) (v d : A) → i < length xs → get_or (set xs i v) i d ≡ v
get_or-set_same [] i v d h = absurd (omega arith)
get_or-set_same (x ∷ xs) zero v d h = refl
get_or-set_same (x ∷ xs) (suc i) v d h = get_or-set_same xs i v d (omega arith)

length-made_flags :
    (s : Stmt) (p : Option (List Bool))
    → s.out_params ≡ p
    → HasFlags s
    → length (made_flags s.param_count p) ≡ s.param_count
unfolding made_flags
length-made_flags s none e h = length-replicate {A = Bool} s.param_count false
length-made_flags s (some flags) e h = h flags e

some_injective {ℓ} : {A : Type ℓ} {a b : A} → some a ≡ some b → a ≡ b
some_injective h = cc

if-HasFlags :
    (b : Bool) (x y : Result (Unit {0}) × Stmt)
    → HasFlags x.1
    → HasFlags y.1
    → HasFlags (if b then x else y).1
if-HasFlags true x y hx hy = hx
if-HasFlags false x y hx hy = hy

-- Registering an OUT parameter keeps one flag for each parameter, whether it is accepted or not.
pub register_out_param-HasFlags :
    (index : ℤ) (s : Stmt) → HasFlags s → HasFlags (register_out_param index s).1
unfolding register_out_param
register_out_param-HasFlags index s h =
    let made = made_flags s.param_count s.out_params in
    if-HasFlags (not (is_call s)) _ _ h (
      if-HasFlags _ _ _ h λ flags e.
        ap length (sym (some_injective e))
        ∙ length-set made (pos_part index - 1) true
        ∙ length-made_flags s s.out_params refl h)

register_out_param-accepted :
    (i : ℕ) (s : Stmt)
    → is_call s ≡ true
    → i < s.param_count
    → (register_out_param (pos (suc i)) s).1
      ≡ record s { out_params = some (set (made_flags s.param_count s.out_params) i true) }
unfolding register_out_param
register_out_param-accepted i s c b = rw (c) (ground arith)

-- A marker is accepted exactly if the statement is a CALL and the index is that of a parameter.
pub register_out_param-is_ok :
    (i : ℕ) (s : Stmt)
    → is_ok (register_out_param (pos i) s).0 ≡ (is_call s && ltb 0 i && not (ltb s.param_count i))
unfolding register_out_param
register_out_param-is_ok i s = ground arith

length-modes_from :
    (i n : ℕ) (flags : List Bool) (args : List Value) → length (modes_from i n flags args) ≡ n
unfolding modes_from
length-modes_from i zero flags args = refl
length-modes_from i (suc n) flags args = ap suc (length-modes_from (i + 1) n flags args)

-- One mode for each parameter.
pub length-param_modes :
    (s : Stmt) (args : List Value) → length (param_modes s args) ≡ s.param_count
unfolding param_modes
length-param_modes s args = length-modes_from 0 s.param_count (out_flags s) args

get_or-modes_from :
    (i n j : ℕ) (flags : List Bool) (args : List Value)
    → j < n
    → get_or (modes_from i n flags args) j 0
      ≡ mode (get_or flags (i + j) false) (get_or args (i + j) Value.null)
unfolding modes_from
get_or-modes_from i zero j flags args h = absurd (omega arith)
get_or-modes_from i (suc n) zero flags args h = let e : i + 0 ≡ i = omega arith in rw (e) refl
get_or-modes_from i (suc n) (suc j) flags args h =
    let e : i + suc j ≡ i + 1 + j = omega arith in
    rw (e) (get_or-modes_from (i + 1) n j flags args (omega arith))

-- After a parameter of a CALL is registered, an execution sends it as OUT when its argument is nil
-- and as INOUT when it is not.
pub register_out_param-modes :
    (i : ℕ) (s : Stmt) (args : List Value)
    → HasFlags s
    → is_call s ≡ true
    → i < s.param_count
    → get_or (param_modes (register_out_param (pos (suc i)) s).1 args) i 0
      ≡ mode true (get_or args i Value.null)
unfolding param_modes
register_out_param-modes i s args h c b =
    let made = made_flags s.param_count s.out_params in
    let same : 0 + i ≡ i = omega arith in
    let small : i < length made = omega (arith, length-made_flags s s.out_params refl h) in
    ap (λ t. get_or (param_modes t args) i 0) (register_out_param-accepted i s c b)
    ∙ (get_or-modes_from 0 s.param_count i (set made i true) args b)
    ∙ ap (λ k. mode (get_or (set made i true) k false) (get_or args k Value.null)) same
    ∙ ap (λ t. mode t (get_or args i Value.null)) (get_or-set_same made i true false small)
