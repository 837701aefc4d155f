-- ===== src/Config/Params.antt =====
-- The query of a DSN is a Go map: its parameters come in any order, and no key comes twice.
use gocubrid.Prelude.{◌≡◌, refl, ◌≢◌, ap, sym, ◌∙◌, List, [], ◌∷◌}
use gocubrid.Exec.{Result, ok, err, bind, bind-ok}
use gocubrid.Exec.Returns.{ok-injective}
use gocubrid.Exec.Orders.{AllApart, fold_all, fold_all-perm}
use gocubrid.Config.{Config, Param, Library, Setting, setting_of, key_of, update, apply_params}
use mathlib.Core.List.{Permᴰ}
use gocubrid.Config.Settings.{source, name_of, update_comm, key_of-named, setting_of-source}

-- No key comes twice.
abbrev pub DistinctKeys : List Param → Type 0
DistinctKeys ps = AllApart (λ p q. p.key ≢ q.key) ps

differ : (a b : Param) → a.key ≢ b.key → b.key ≢ a.key
differ a b h e = h (sym e)

keys_differ :
    (lib : Library) (a b : Param) (s t : Setting)
    → a.key ≢ b.key
    → setting_of lib (key_of a.key) a ≡ ok s
    → setting_of lib (key_of b.key) b ≡ ok t
    → source s ≢ source t
keys_differ lib a b s t h e f same =
    let from_a = key_of-named a.key (source s) (setting_of-source lib (key_of a.key) a s e) in
    let from_b = key_of-named b.key (source t) (setting_of-source lib (key_of b.key) b t f) in
    h (from_a ∙ ap name_of same ∙ sym from_b)

-- One parameter of the query.
abbrev set_param : Library → Param → Config → Result Config
set_param lib p c = bind (setting_of lib (key_of p.key) p) (λ s. ok (update s c))

apply_params-fold_all :
    (lib : Library) (ps : List Param) (c : Config)
    → apply_params lib ps c ≡ fold_all (set_param lib) ps c
unfolding apply_params
apply_params-fold_all lib [] c = refl
apply_params-fold_all lib (p ∷ ps) c =
    elim (setting_of lib (key_of p.key) p)
      as (λ r.
        bind r (λ s. apply_params lib ps (update s c))
        ≡ bind (bind r (λ s. ok (update s c))) (λ d. fold_all (set_param lib) ps d)) [
          | ok s ↦ apply_params-fold_all lib ps (update s c)
          | err e ↦ refl
        ]

set_param_comm :
    (lib : Library) (a b : Param) (c d : Config)
    → a.key ≢ b.key
    → bind (set_param lib a c) (set_param lib b) ≡ ok d
    → bind (set_param lib b c) (set_param lib a) ≡ ok d
set_param_comm lib a b c d h e =
    let (c', at_a, at_b) = bind-ok (set_param lib a c) (set_param lib b) e in
    let (s, got_s, sets_s) =
      bind-ok (setting_of lib (key_of a.key) a) (λ s. ok (update s c)) at_a in
    let (t, got_t, sets_t) =
      bind-ok (setting_of lib (key_of b.key) b) (λ t. ok (update t c')) at_b in
    rw (got_t, got_s)
      (ap ok (update_comm s t c (keys_differ lib a b s t h got_s got_t))
        ∙ ap (λ x. ok (update t x)) (ok-injective sets_s)
        ∙ sets_t)

-- However the map is walked, a query that is accepted in one order is accepted in every other, with
-- the same configuration.
pub apply_params-perm :
    (lib : Library) {ps qs : List Param} (c r : Config)
    → DistinctKeys ps
    → Permᴰ ps qs
    → apply_params lib ps c ≡ ok r
    → apply_params lib qs c ≡ ok r
apply_params-perm lib {ps} {qs} c r h d e =
    apply_params-fold_all lib qs c
    ∙ fold_all-perm (set_param lib) (λ p q. p.key ≢ q.key) differ (set_param_comm lib) c r h d
        (sym (apply_params-fold_all lib ps c) ∙ e)
