-- ===== src/Session/Connect/Accounts.antt =====
-- Which sockets stay open: one for a connection that is returned, and none otherwise.
use gocubrid.Prelude.{
  ℕ, ℤ, ◌<◌, ◌≡◌, refl, ap, sym, ◌∙◌, subst, true, false, ◌⊎◌, inl, inr, List, [], ◌∷◌, ◌++◌, All,
  length, ◌==◌, if◌then◌else◌, arith,
}
use gocubrid.Errors.{Error, dial_failed, host_failed}
use gocubrid.Exec.{Result, ok, err, pure, wrap_error, ◌>>=◌, continue}
use gocubrid.Bytes.{Bytes}
use gocubrid.Protocol.Handshake.{ConnectReply}
use gocubrid.Config.{Config}
use gocubrid.Session.Conn.{Conn}
use gocubrid.Session.Failover.{Swept, connected, unreachable, sweep, after}
use gocubrid.Session.Connect.{
  Socket, Net, Link, address, remove_id, close_id, next_dial, opened, dial, attempt_host,
  alt_targets, connect, sweep_all, handshake, settle, connect_host,
}
use gocubrid.Session.Connect.Sockets.{
  IsFresh, Outcome, remove_id-below, remove_id-own, All-weaken, Keeps-handshake,
}

-- One attempt adds an open socket exactly if it gives a connection.
abbrev pub Adds {ℓ} : {A : Type ℓ} → List ℕ → Result A × Net → Type 0
Adds others (ok c, n) = ((i : ℕ) × (n.live ≡ i ∷ others)) × IsFresh n
Adds others (err e, n) = (n.live ≡ others) × IsFresh n

closed-live :
    (others : List ℕ) (i : ℕ) (live : List ℕ)
    → All (λ j. j < i) others
    → (live ≡ i ∷ others) ⊎ (live ≡ others)
    → remove_id i live ≡ others
closed-live others i live above (inl e) = ap (remove_id i) e ∙ remove_id-own i others above
closed-live others i live above (inr e) = ap (remove_id i) e ∙ remove_id-below i others above

settled :
    (cfg : Config) (others : List ℕ) (out : Result ConnectReply × (Net × Link))
    → Outcome others out
    → Adds others (settle cfg out)
unfolding settle close_id
settled cfg others (ok rep, s) o = (
  (s.1.id, o.live),
  subst (All (λ i. i < s.0.next_id)) (sym o.live)
      (o.given, All-weaken s.1.id s.0.next_id others (omega (arith, o.given)) o.above),
)
settled cfg others (err e, s) o =
    let same = closed-live others s.1.id s.0.live o.above o.live in
    (
      same,
      subst (All (λ i. i < s.0.next_id)) (sym same)
          (All-weaken s.1.id s.0.next_id others (omega (arith, o.given)) o.above),
    )

dialed_host :
    (tls : Socket → Result Socket) (cfg : Config) (host : Bytes) (port : ℤ) (f : Error → Error)
    (r : Result Socket) (n : Net)
    → IsFresh n
    → Adds {A = Conn} n.live (elim (wrap_error f (opened r n).0) [
      | ok l ↦ settle cfg (handshake tls cfg host port ((opened r n).1, l))
      | err e ↦ (err e, (opened r n).1)
    ])
dialed_host tls cfg host port f (err e) n fresh = (refl, fresh)
dialed_host tls cfg host port f (ok s) n fresh = settled cfg n.live _ (
    (Keeps-handshake tls cfg host port).at n.live _
      (record { live = refl; above = fresh; given = omega arith }))

connect_host-Adds :
    (tls : Socket → Result Socket) (cfg : Config) (t : Bytes × ℤ) (n : Net)
    → IsFresh n
    → Adds n.live (connect_host tls cfg t n)
unfolding connect_host dial
connect_host-Adds tls cfg (host, port) n fresh =
    let d = next_dial n.dials in
    dialed_host tls cfg host port (dial_failed (address host port)) d.outcome _ fresh

-- The sweep.
abbrev pub Accounts : List ℕ → Result (Swept Conn) × Net → Type 0
Accounts others (ok (connected c), n) = (i : ℕ) × (n.live ≡ i ∷ others)
Accounts others (ok (unreachable errs), n) = n.live ≡ others
Accounts others (err e, n) = n.live ≡ others

attempted :
    (f : Error → Error) (others : List ℕ) (out : Result Conn × Net)
    → Adds others out
    → Adds others (wrap_error f out.0, out.1)
attempted f others (ok c, n) h = h
attempted f others (err e, n) h = h

attempt_host-Adds :
    (tls : Socket → Result Socket) (cfg : Config) (t : Bytes × ℤ) (n : Net)
    → IsFresh n
    → Adds n.live (attempt_host tls cfg t n)
unfolding attempt_host
attempt_host-Adds tls cfg t n fresh =
    attempted (host_failed (address t.0 t.1)) n.live (connect_host tls cfg t n)
      (connect_host-Adds tls cfg t n fresh)

module _ (tls : Socket → Result Socket) (cfg : Config) (others : List ℕ) where
  swept_after :
      (more : List Error → Net → Swept Conn × Net) (errs : List Error) (out : Result Conn × Net)
      → ((es : List Error) (n : Net)
          → n.live ≡ others
          → IsFresh n
          → Accounts others (ok (more es n).0, (more es n).1))
      → Adds others out
      → let got = after (attempt_host tls cfg) (λ m. m.dead) more errs out in
        Accounts others (ok got.0, got.1)
  swept_after more errs (ok c, n) h a = a.0
  swept_after more errs (err e, n) h a =
      elim n.dead
        as (λ b.
          let got = if b then (unreachable (errs ++ e ∷ []), n) else more (errs ++ e ∷ []) n in
          Accounts others (ok got.0, got.1)) [ true ↦ a.0 | false ↦ h (errs ++ e ∷ []) n a.0 a.1 ]

  swept :
      (ts : List (Bytes × ℤ)) (errs : List Error) (n : Net)
      → n.live ≡ others
      → IsFresh n
      → let got = sweep (attempt_host tls cfg) (λ m. m.dead) ts errs n in
        Accounts others (ok got.0, got.1)
  unfolding sweep
  swept [] errs n same fresh = same
  swept (t ∷ ts) errs n same fresh =
      swept_after (λ es m. sweep (attempt_host tls cfg) (λ k. k.dead) ts es m) errs
        (attempt_host tls cfg t n) (λ es m same' fresh'. swept ts es m same' fresh')
        (subst (λ l. Adds l (attempt_host tls cfg t n)) same (attempt_host-Adds tls cfg t n fresh))

  swept_all :
      (alts : Result (List (Bytes × ℤ))) (n : Net)
      → n.live ≡ others
      → IsFresh n
      → Accounts others (sweep_all tls cfg alts n)
  swept_all (err e) n same fresh = same
  swept_all (ok alts) n same fresh = swept ((cfg.host, cfg.port) ∷ alts) [] n same fresh

single :
    (others : List ℕ) (out : Result Conn × Net)
    → Adds others out
    → Accounts others (continue out.0 (λ c. pure (connected c)) out.1)
single others (ok c, n) a = a.0
single others (err e, n) a = a.0

-- `Connect` opens no socket that it does not close, redirects and failed attempts included: when it
-- gives a connection there is exactly one open socket more than before, and when it fails none.
pub connect-Accounts :
    (tls : Socket → Result Socket) (cfg : Config) (n : Net)
    → IsFresh n
    → Accounts n.live (connect tls cfg n)
unfolding connect
connect-Accounts tls cfg n fresh =
    elim (length cfg.alt_hosts == 0)
      as (λ b. Accounts n.live (
        (if b
            then (connect_host tls cfg (cfg.host, cfg.port) >>= λ c. pure (connected c))
            else sweep_all tls cfg (alt_targets cfg.alt_hosts))
          n)) [
            | true ↦
                single n.live (connect_host tls cfg (cfg.host, cfg.port) n)
                  (connect_host-Adds tls cfg (cfg.host, cfg.port) n fresh)
            | false ↦ swept_all tls cfg n.live (alt_targets cfg.alt_hosts) n refl fresh
          ]
