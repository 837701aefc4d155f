-- ===== src/Session/Connect/Sockets.antt =====
-- The handshake keeps one socket open, also over a redirect, and at most that one if it fails.
use gocubrid.Prelude.{
  ℕ, ℤ, ◌<◌, ◌≤◌, ◌≡◌, refl, ap, ◌∙◌, Bool, true, false, ◌⊎◌, inl, inr, List, [], ◌∷◌, All, Option,
  none, some, is_neg, pos_part, ◌==◌, if◌then◌else◌, arith,
}
use gocubrid.Errors.{
  Error, greeting_failed, greeting_reply_failed, redirect_failed, tls_failed, auth_failed,
  auth_reply_failed,
}
use gocubrid.Exec.{
  Result, ok, err, Exec, pure, raise, lift, wrap, wrap_error, gets, ◌>>=◌, continue,
}
use gocubrid.Bytes.{Bytes}
use gocubrid.Protocol.Frame.{Stream, read_response}
use gocubrid.Protocol.Handshake.{greeting, db_info, parse_connect_reply}
use gocubrid.Config.{Config}
use gocubrid.Session.Connect.{
  Socket, Net, Link, Shaking, remove_id, close_id, next_dial, opened, dial, write_bytes, read_link,
  read_port, rejection, redial, follow_port, secure, upgrade, conn_url, authenticate, handshake,
}

-- Numbers are given out in order: those in use are below the next one.
abbrev pub IsFresh : Net → Type 0
IsFresh n = All (λ i. i < n.next_id) n.live

-- The link's socket is open, beside the sockets `others`.
pub record Owns (others : List ℕ) (s : Net × Link) : Type 0 where
  pub live : s.0.live ≡ s.1.id ∷ others
  pub above : All (λ i. i < s.1.id) others
  pub given : s.1.id < s.0.next_id

-- The link's socket is open or closed, beside them.
pub record Leaves (others : List ℕ) (s : Net × Link) : Type 0 where
  pub live : (s.0.live ≡ s.1.id ∷ others) ⊎ (s.0.live ≡ others)
  pub above : All (λ i. i < s.1.id) others
  pub given : s.1.id < s.0.next_id

pub Owns-Leaves : (others : List ℕ) (s : Net × Link) → Owns others s → Leaves others s
Owns-Leaves others s o = record { live = inl o.live; above = o.above; given = o.given }

abbrev pub Outcome {ℓ} : {A : Type ℓ} → List ℕ → Result A × (Net × Link) → Type 0
Outcome others (ok a, s) = Owns others s
Outcome others (err e, s) = Leaves others s

-- A step of the handshake keeps its socket if it succeeds.
pub record Keeps {ℓ} {A : Type ℓ} (m : Shaking A) : Type ℓ where
  pub at : (others : List ℕ) (s : Net × Link) → Owns others s → Outcome others (m s)

module _ {ℓ} {A : Type ℓ} where
  Keeps-pure : (a : A) → Keeps (pure a)
  Keeps-pure a = record { at = λ others s o. o }

  Keeps-raise : (e : Error) → Keeps {A = A} (raise e)
  Keeps-raise e = record { at = λ others s o. Owns-Leaves others s o }

  lifted : (r : Result A) (others : List ℕ) (s : Net × Link) → Owns others s → Outcome others (r, s)
  lifted (ok a) others s o = o
  lifted (err e) others s o = Owns-Leaves others s o

  Keeps-lift : (r : Result A) → Keeps (lift r)
  Keeps-lift r = record { at = λ others s o. lifted r others s o }

  Keeps-gets : (f : Net × Link → A) → Keeps (gets f)
  Keeps-gets f = record { at = λ others s o. o }

  wrapped :
      (f : Error → Error) (others : List ℕ) (out : Result A × (Net × Link))
      → Outcome others out
      → Outcome others (wrap_error f out.0, out.1)
  wrapped f others (ok a, s) o = o
  wrapped f others (err e, s) o = o

  Keeps-wrap : (f : Error → Error) (m : Shaking A) → Keeps m → Keeps (wrap f m)
  Keeps-wrap f m h = record { at = λ others s o. wrapped f others (m s) (h.at others s o) }

  Keeps-if : (b : Bool) (m n : Shaking A) → Keeps m → Keeps n → Keeps (if b then m else n)
  Keeps-if true m n hm hn = hm
  Keeps-if false m n hm hn = hn

  Keeps-read_link : (m : Exec Stream A) → Keeps (read_link m)
  unfolding read_link
  Keeps-read_link m = record {
    at = λ others s o.
        lifted _ others _ (record { live = o.live; above = o.above; given = o.given });
  }

module _ {ℓ κ} {A : Type ℓ} {B : Type κ} where
  then_outcome :
      (others : List ℕ) (out : Result A × (Net × Link)) (f : A → Shaking B)
      → Outcome others out
      → ((a : A) → Keeps (f a))
      → Outcome others (continue out.0 f out.1)
  then_outcome others (ok a, s) f o h = (h a).at others s o
  then_outcome others (err e, s) f o h = o

  Keeps-bind :
      (m : Shaking A) (f : A → Shaking B) → Keeps m → ((a : A) → Keeps (f a)) → Keeps (m >>= f)
  Keeps-bind m f hm hf = record {
    at = λ others s o. then_outcome others (m s) f (hm.at others s o) hf;
  }

Keeps-write_bytes : (e : Option Error) (f : Error → Error) (b : Bytes) → Keeps (write_bytes e f b)
unfolding write_bytes
Keeps-write_bytes none f b = record {
  at = λ others s o. record { live = o.live; above = o.above; given = o.given };
}
Keeps-write_bytes (some e) f b = record { at = λ others s o. Owns-Leaves others s o }

pub remove_id-below : (i : ℕ) (js : List ℕ) → All (λ j. j < i) js → remove_id i js ≡ js
unfolding remove_id
remove_id-below i [] h = refl
remove_id-below i (j ∷ js) h =
    let other : (j == i) ≡ false = ground (arith, h.0) in
    rw (other) (ap (λ t. j ∷ t) (remove_id-below i js h.1))

pub remove_id-own : (i : ℕ) (js : List ℕ) → All (λ j. j < i) js → remove_id i (i ∷ js) ≡ js
unfolding remove_id
remove_id-own i js h =
    let same : (i == i) ≡ true = ground arith in rw (same) (remove_id-below i js h)

pub All-weaken : (i k : ℕ) (js : List ℕ) → i ≤ k → All (λ j. j < i) js → All (λ j. j < k) js
All-weaken i k [] h hs = tt
All-weaken i k (j ∷ js) h hs = (omega (arith, hs.0), All-weaken i k js h hs.1)

-- What a dial does to the sockets.
opened_outcome :
    (others : List ℕ) (l : Link) (r : Result Socket) (n : Net)
    → n.live ≡ others
    → All (λ i. i < l.id) others
    → l.id < n.next_id
    → Outcome {A = Unit {0}} others (elim (wrap_error redirect_failed (opened r n).0) [
      | ok l' ↦ (ok tt, ((opened r n).1, l'))
      | err e ↦ (err e, ((opened r n).1, l))
    ])
opened_outcome others l (err e) n same above given = record {
  live = inr same;
  above = above;
  given = given;
}
opened_outcome others l (ok s) n same above given = record {
  live = ap (λ t. n.next_id ∷ t) same;
  above = All-weaken l.id n.next_id others (omega arith) above;
  given = omega arith;
}

Keeps-redial : (host : Bytes) (port : ℤ) → Keeps (redial host port)
unfolding redial dial close_id
Keeps-redial host port = record {
  at = λ others s o.
      let d = next_dial s.0.dials in
      opened_outcome others s.1 d.outcome _
        (ap (remove_id s.1.id) o.live ∙ remove_id-own s.1.id others o.above) o.above o.given;
}

Keeps-follow_port : (host : Bytes) (port : ℤ) → Keeps (follow_port host port)
unfolding follow_port
Keeps-follow_port host port =
    Keeps-if (is_neg port) _ _ (Keeps-raise (rejection port))
      (Keeps-if (pos_part port == 0) _ _ (Keeps-pure tt) (Keeps-redial host port))

secured :
    (others : List ℕ) (s : Net × Link) (r : Result Socket)
    → Owns others s
    → Outcome {A = Unit {0}} others (elim r [
      | ok sock ↦ (ok tt, (s.0, record (s.1) { socket = sock }))
      | err e ↦ (err (tls_failed e), s)
    ])
secured others s (ok sock) o = record { live = o.live; above = o.above; given = o.given }
secured others s (err e) o = Owns-Leaves others s o

Keeps-secure : (tls : Socket → Result Socket) → Keeps (secure tls)
unfolding secure
Keeps-secure tls = record { at = λ others s o. secured others s (tls s.1.socket) o }

Keeps-authenticate : (cfg : Config) (host : Bytes) (port : ℤ) → Keeps (authenticate cfg host port)
unfolding authenticate
Keeps-authenticate cfg host port =
    let block = db_info cfg.database cfg.user cfg.password (conn_url cfg host port) none in
    Keeps-bind (lift block) _ (Keeps-lift block) λ db.
      Keeps-bind (gets (λ s. s.1.socket.auth_error)) _ (Keeps-gets _) λ e.
        Keeps-bind (write_bytes e auth_failed db) _ (Keeps-write_bytes e auth_failed db) λ u.
          Keeps-bind (wrap auth_reply_failed (read_link read_response)) _
            (Keeps-wrap auth_reply_failed _ (Keeps-read_link read_response))
            λ reply. Keeps-lift (parse_connect_reply reply.0)

pub Keeps-handshake :
    (tls : Socket → Result Socket) (cfg : Config) (host : Bytes) (port : ℤ)
    → Keeps (handshake tls cfg host port)
unfolding handshake upgrade
Keeps-handshake tls cfg host port =
    Keeps-bind (gets (λ s. s.1.socket.greeting_error)) _ (Keeps-gets _) λ e.
      Keeps-bind (write_bytes e greeting_failed (greeting cfg.ssl)) _
        (Keeps-write_bytes e greeting_failed (greeting cfg.ssl))
        λ u.
          Keeps-bind (wrap greeting_reply_failed (read_link read_port)) _
            (Keeps-wrap greeting_reply_failed _ (Keeps-read_link read_port))
            λ cas. Keeps-bind (follow_port host cas) _ (Keeps-follow_port host cas) λ v.
              Keeps-bind (upgrade tls cfg.ssl) _
                (Keeps-if cfg.ssl _ _ (Keeps-secure tls) (Keeps-pure tt))
                λ w. Keeps-authenticate cfg host port
