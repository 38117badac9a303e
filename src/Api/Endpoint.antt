-- ===== src/Api/Endpoint.antt =====
-- The gateways that open a connection of their own: RegisterAccountServiceHandlerFromEndpoint of
-- gen/go/dbank/v1/account.pb.gw.go, and RegisterTransactionServiceHandlerFromEndpoint of
-- gen/go/dbank/v1/transaction.pb.gw.go. NewServer calls neither.
use dbank.Prelude.{
  ℕ, ◌+◌, ◌≡◌, refl, sym, ap, subst, Bool, true, false, not, Option, none, some, List, [], ◌∷◌,
  ◌++◌, select, all, eqb, if◌then◌else◌, arith, Option-cases, inl, inr,
}
use dbank.Status.{⊤, Error, Result, ok, err, Exec, pure}
use dbank.Store.Queries.{any}
use dbank.Api.Gateway.{Route, routes, account_routes, transaction_routes}

-- The routes of the mux; the connections that are open, and those of them that a goroutine closes when
-- the context is done, latest first; the registrations share their context. Calls of grpc.NewClient
-- are numbered, and so are the connections.
pub record Proxy : Type 0 where
  pub mux : List Route
  pub connections : List ℕ
  pub waiting : List ℕ
  pub calls : ℕ

-- The gRPC library: the error of a call of NewClient, and whether the Close of a connection fails.
pub record Dialler : Type 0 where
  pub new_client : ℕ → Option Error
  pub holds : ℕ → Bool

abbrev pub without : ℕ → List ℕ → List ℕ
without conn = select (λ k. not (eqb k conn))

-- The calls of mux.Handle, of which none fails.
abbrev pub register_routes : List Route → Exec Proxy ⊤
register_routes rs p = pure tt (record p { mux = p.mux ++ rs })

module _ (dl : Dialler) where
  abbrev pub close_client : ℕ → Proxy → Proxy
  close_client conn p =
      if dl.holds conn then p else record p { connections = without conn p.connections }

  -- The deferred function: an error closes the connection, which otherwise waits for the context.
  abbrev pub tend : ℕ → Result ⊤ → Proxy → Proxy
  tend conn (err e) p = close_client conn p
  tend conn (ok _) p = record p { waiting = conn ∷ p.waiting }

  abbrev pub dialled : Proxy → Proxy
  dialled p = record p { connections = p.calls ∷ p.connections; calls = p.calls + 1 }

  -- RegisterAccountServiceHandlerFromEndpoint, for the routes of the account service, and
  -- RegisterTransactionServiceHandlerFromEndpoint, for those of the transaction service.
  unfoldable pub register_handler_from_endpoint : List Route → Exec Proxy ⊤
  register_handler_from_endpoint rs p = elim (dl.new_client p.calls) [
    | some e ↦ (err e, record p { calls = p.calls + 1 })
    | none ↦ let (r, p') = register_routes rs (dialled p) in (r, tend p.calls r p')
  ]

  -- The goroutines, once the context is done.
  abbrev pub close_all : List ℕ → Proxy → Proxy
  close_all [] p = p
  close_all (conn ∷ conns) p = close_all conns (close_client conn p)

  abbrev pub context_done : Proxy → Proxy
  context_done p = close_all p.waiting p

  -- One registration after another on one mux, whichever of them fail.
  abbrev pub register_all : List (List Route) → Proxy → Proxy
  register_all [] p = p
  register_all (rs ∷ rest) p = register_all rest (register_handler_from_endpoint rs p).1

-- The connections that are open are those that a goroutine closes.
abbrev pub Tended : Proxy → Type 0
Tended p = p.connections ≡ p.waiting

module _ (dl : Dialler) where
  register_handler_from_endpoint-Tended :
      (rs : List Route) (p : Proxy) → Tended p → Tended (register_handler_from_endpoint dl rs p).1
  unfolding register_handler_from_endpoint
  register_handler_from_endpoint-Tended rs p h = elim (Option-cases (dl.new_client p.calls)) [
    | inl e ↦ rw (e, register_handler_from_endpoint) (ap (λ l. p.calls ∷ l) h)
    | inr (e, failed) ↦ rw (failed, register_handler_from_endpoint) h
  ]

  register_all-Tended :
      (rss : List (List Route)) (p : Proxy) → Tended p → Tended (register_all dl rss p)
  register_all-Tended [] p h = h
  register_all-Tended (rs ∷ rss) p h =
      register_all-Tended rss (register_handler_from_endpoint dl rs p).1
        (register_handler_from_endpoint-Tended rs p h)

  -- Every connection of the first list is in the second.
  abbrev within : List ℕ → List ℕ → Bool
  within ks conns = all (λ k. any (λ c. eqb k c) conns) ks

  within-without :
      (conn : ℕ) (conns ks : List ℕ)
      → within ks (conn ∷ conns) ≡ true
      → within (without conn ks) conns ≡ true
  within-without conn conns [] h = refl
  within-without conn conns (k ∷ ks) h =
      let rest : within ks (conn ∷ conns) ≡ true = ground arith in
      let kept = within-without conn conns ks rest in ground arith

  within_nil : (ks : List ℕ) → within ks [] ≡ true → ks ≡ []
  within_nil [] h = refl
  within_nil (k ∷ ks) h = absurd (ground arith)

  within_cons :
      (ks conns : List ℕ) → within ks conns ≡ true → (c : ℕ) → within ks (c ∷ conns) ≡ true
  within_cons [] conns h c = refl
  within_cons (k ∷ ks) conns h c =
      let here : any (λ c. eqb k c) conns ≡ true = ground arith in
      let rest : within ks conns ≡ true = ground arith in
      let later = within_cons ks conns rest c in ground arith

  within_refl : (ks : List ℕ) → within ks ks ≡ true
  within_refl [] = refl
  within_refl (k ∷ ks) = let later = within_cons ks ks (within_refl ks) k in ground arith

  close_all-none :
      (conns : List ℕ) (p : Proxy)
      → ((k : ℕ) → dl.holds k ≡ false)
      → within p.connections conns ≡ true
      → (close_all dl conns p).connections ≡ []
  close_all-none [] p sound h = within_nil p.connections h
  close_all-none (conn ∷ conns) p sound h = close_all-none conns (close_client dl conn p) sound (
      subst
        (λ b.
          within
            (if b then p else record p { connections = without conn p.connections }).connections
            conns
          ≡ true)
        (sym (sound conn)) (within-without conn conns p.connections h))

  -- However many registrations are made in turn, and whichever of them cannot dial, the connections
  -- that are open are those whose goroutine waits for the context, and once the context is done none
  -- is open, where they were so before and where closing a connection does not fail.
  pub register_all-closed :
      (rss : List (List Route)) (p : Proxy)
      → Tended p
      → ((k : ℕ) → dl.holds k ≡ false)
      → Tended (register_all dl rss p)
        × ((context_done dl (register_all dl rss p)).connections ≡ [])
  register_all-closed rss p h sound =
      let q = register_all dl rss p in
      let tended = register_all-Tended rss p h in
      (
        tended,
        close_all-none q.waiting q sound
            (subst (λ ks. within ks q.waiting ≡ true) (sym tended) (within_refl q.waiting)),
      )

  -- Both registrations give the mux the routes that the gateway of NewServer has.
  register_all-routes :
      (p : Proxy)
      → dl.new_client p.calls ≡ none
      → dl.new_client (p.calls + 1) ≡ none
      → p.mux ≡ []
      → (register_all dl (account_routes ∷ transaction_routes ∷ []) p).mux ≡ routes
  unfolding register_handler_from_endpoint
  register_all-routes p first second empty = ground (arith, empty)
