-- ===== src/Web/Doors.antt =====
-- The router of app/server.go before the gateway: which requests reach the services, and how a call is
-- answered from there.
use mathlib.Core.List.{Memᴰ as Member}
use dbank.Prelude.{
  ℕ, String, ◌≡◌, refl, ap, ◌∙◌, subst, Bool, true, false, some, List, [], ◌∷◌, ◌==◌, if◌then◌else◌,
  inl, inr, eq_iff, arith, Bool-cases, Option-cases,
}
use dbank.Log.{codes, has_prefix}
use dbank.Sql.{Driver}
use dbank.Broker.{Broker}
use dbank.Store.Requests.{Float64}
use dbank.Service.Bank.{Bank}
use dbank.Service.Accounts.{Secrets}
use dbank.Service.Transactions.{Decimals}
use dbank.Api.{Method, Message, Reply, call, respond, reply_of}
use dbank.Api.Gateway.{Runtime, HttpRequest, serve_gateway}
use dbank.Api.Grpc.{Transport, invoke, serve_grpc}
use dbank.Api.Calls.{
  Client, Fits, pattern_for, resource_of, id_in, http_request, Understands, Carries,
}
use dbank.Api.Served.{serve_gateway-serve_grpc}
use dbank.Web.{
  Documents, Mount, mount, Page, gateway_page, ui_page, api_page, exactly, mounts, Router, reply,
  takes, serve_page, serve_http,
}

-- The mounts after that of the gateway.
abbrev pages : List Mount
pages =
    mount (some "GET") (exactly "/swagger/") ui_page
    ∷ mount (some "GET") (exactly "/swagger/v1/openapiv2.json") api_page
    ∷ []

-- The pages of the mounts that are for a request.
abbrev pub taken : List Mount → HttpRequest → List Page
taken [] req = []
taken (t ∷ ts) req = let rest = taken ts req in if takes t req then t.page ∷ rest else rest

-- chi gives a request that one mount is for to that mount, and to no mount that is not for it.
pub record Mounts (chi : Router) : Type 0 where
  pub finds :
      (req : HttpRequest) (page : Page) → taken mounts req ≡ page ∷ [] → chi mounts req ≡ some page
  pub only :
      (req : HttpRequest) (page : Page)
      → chi mounts req ≡ some page
      → Member page (taken mounts req)

-- The paths of the gateway.
abbrev pub is_dbank : String → Bool
is_dbank path = has_prefix (codes "/dbank/") (codes path)

is_dbank-other :
    (path page : String) → is_dbank path ≡ true → is_dbank page ≡ false → (path == page) ≡ false
is_dbank-other path page h k = elim (Bool-cases (path == page)) [
  | inl e ↦ absurd (ground (arith, ap is_dbank ((eq_iff path page).0 e)))
  | inr e ↦ e
]

taken-gateway :
    (req : HttpRequest) → is_dbank req.path ≡ true → taken mounts req ≡ gateway_page ∷ []
taken-gateway req h = ground (
  arith,
  is_dbank-other req.path "/swagger/" h refl,
  is_dbank-other req.path "/swagger/v1/openapiv2.json" h refl,
)

-- The mounts of the two pages have no page of the gateway.
no_gateway :
    (a b : Bool)
    → let rest = if b then api_page ∷ [] else [] in
      Member gateway_page (if a then ui_page ∷ rest else rest) → ⊥
no_gateway true true (Member.head e) = cc
no_gateway true true (Member.tail (Member.head e)) = cc
no_gateway true true (Member.tail (Member.tail m)) = elim m [ ]
no_gateway true false (Member.head e) = cc
no_gateway true false (Member.tail m) = elim m [ ]
no_gateway false true (Member.head e) = cc
no_gateway false true (Member.tail m) = elim m [ ]
no_gateway false false m = elim m [ ]

not-taken :
    (req : HttpRequest) → is_dbank req.path ≡ false → Member gateway_page (taken mounts req) → ⊥
not-taken req h m = no_gateway _ _ (
    subst (λ c. Member gateway_page (if c then gateway_page ∷ taken pages req else taken pages req))
      h m)

module _ (rt : Runtime) (docs : Documents) (chi : Router) (sound : Mounts chi) where
  -- A request under /dbank/ is answered by the gateway.
  serve_http-gateway :
      (service : (m : Method) → ℕ → Message m → Bank → Reply × Bank) (n : ℕ) (req : HttpRequest)
      (b : Bank)
      → is_dbank req.path ≡ true
      → serve_http rt docs service chi n req b
        ≡ (reply (serve_gateway rt service n req b).0, (serve_gateway rt service n req b).1)
  unfolding serve_http
  serve_http-gateway service n req b h =
      rw (sound.finds req gateway_page (taken-gateway req h), serve_http) refl

  serve_page-keeps :
      (service : (m : Method) → ℕ → Message m → Bank → Reply × Bank) (n : ℕ) (req : HttpRequest)
      (b : Bank) (page : Page)
      → is_dbank req.path ≡ false
      → chi mounts req ≡ some page
      → (serve_page rt docs service page n req b).1 ≡ b
  serve_page-keeps service n req b gateway_page h found =
      absurd (not-taken req h (sound.only req gateway_page found))
  serve_page-keeps service n req b ui_page h found = refl
  serve_page-keeps service n req b api_page h found = refl

  -- A request that is not under /dbank/ leaves the bank as it is, where the router gives no request to
  -- a mount that is not for it.
  pub serve_http-keeps :
      (service : (m : Method) → ℕ → Message m → Bank → Reply × Bank) (n : ℕ) (req : HttpRequest)
      (b : Bank)
      → is_dbank req.path ≡ false
      → (serve_http rt docs service chi n req b).1 ≡ b
  unfolding serve_http
  serve_http-keeps service n req b h = elim (Option-cases (chi mounts req)) [
    | inl none_found ↦ rw (none_found, serve_http) refl
    | inr (page, found) ↦ rw (found, serve_http) (serve_page-keeps service n req b page h found)
  ]

module _ {F B : Type 0} (fl : Float64 F) (dec : Decimals) (sec : Secrets) (d : Driver) (mq : Broker)
    (rt : Runtime) (docs : Documents) (chi : Router) (c : Client) (t : Transport B) where
  -- A call of any method with any message is answered alike by the HTTP server, through its router and
  -- the JSON gateway, and by the gRPC server: by its handler's own answer or error, with the state
  -- that the handler leaves.
  -- The conditions are on the libraries and on the path: a request that one mount of the router is for
  -- is given to it; the path of a call is under /dbank/; a path
  -- matches its own pattern and none apart from it; the one route that a request matches and the one
  -- method of a full name are found; the request's context can be annotated; a message is read back as
  -- it was written; and the id can be a part of a path.
  pub serve_http-serve_grpc :
      (m : Method) (message : Message m) (n : ℕ) (b : Bank)
      → Mounts chi
      → is_dbank (http_request c m message).path ≡ true
      → Understands rt c m message
      → Carries t m message
      → Fits c (pattern_for (resource_of m)) (id_in m message)
      → let (answer, b') = call fl dec sec d mq m n message b in
        (serve_http rt docs (respond fl dec sec d mq) chi n (http_request c m message) b
          ≡ (reply (reply_of m answer), b'))
        × (serve_grpc t (respond fl dec sec d mq) n (invoke t m message).0 (invoke t m message).1 b
            ≡ (reply_of m answer, b'))
  serve_http-serve_grpc m message n b sound under u k f =
      let (same, grpc) = serve_gateway-serve_grpc fl dec sec d mq rt c t m message n b u k f in
      (
        serve_http-gateway rt docs chi sound (respond fl dec sec d mq) n (http_request c m message)
              b under
            ∙ ap (λ r. (reply r.0, r.1)) same,
        grpc,
      )
