-- ===== src/Tests/Web.antt =====
-- The router and the pages of the HTTP server: app/server.go and app/swagger/swagger.go.
use mathlib.Core.List.{Memᴰ as Member}
use dbank.Prelude.{◌≡◌, refl, ap, List, [], ◌∷◌, some, arith}
use dbank.Status.{ok, err, message}
use dbank.Api.{update_account, call, respond, reply_of}
use dbank.Api.Grpc.{invoke, serve_grpc}
use dbank.Api.Gateway.{HttpRequest}
use dbank.Api.Calls.{http_request}
use dbank.Web.{mounts, Documents, Router, reply, response, ui, swagger_template, serve_http}
use dbank.Web.Doors.{taken, Mounts, serve_http-serve_grpc, serve_http-keeps}
use dbank.Tests.World.{floats, decimals, healthy, broker, shared}
use dbank.Tests.Sessions.{secrets, renaming}
use dbank.Tests.Api.{client, runtime, transport, first, understood, carried}

abbrev documents : Documents
documents = record { execute = λ t. ok t; api_v11_json = "swagger: \"2.0\"" }

abbrev router : Router
router ts req = first (taken ts req)

first-Member : {A : Type 0} (xs : List A) (x : A) → first xs ≡ some x → Member x xs
first-Member [] x h = absurd (ground arith)
first-Member (y ∷ ys) x h = Member.head (ground arith)

router-Mounts : Mounts router
router-Mounts = record {
  finds = λ req page h. ap first h;
  only = λ req page h. first-Member (taken mounts req) page h;
}

abbrev documentation : HttpRequest
documentation = record { http_method = "GET"; path = "/swagger/"; query = ""; body = "" }

page_shown :
    (serve_http runtime documents
      (respond floats decimals secrets healthy broker)
      router
      0
      documentation
      shared).0
    ≡ response (record {
      content_type = "text/html; charset=utf-8";
      status_code = 200;
      body = swagger_template;
    })
unfolding serve_http ui
page_shown = refl

not_rendered : ui (record documents { execute = λ _. err (message "template") }) ≡ record {
  content_type = "text/plain; charset=utf-8";
  status_code = 500;
  body = "Could not render Swagger";
}
unfolding ui
not_rendered = refl

documentation_untouched :
    (serve_http runtime documents
      (respond floats decimals secrets healthy broker)
      router
      0
      documentation
      shared).1
    ≡ shared
documentation_untouched =
    serve_http-keeps runtime documents router router-Mounts
      (respond floats decimals secrets healthy broker) 0 documentation shared refl

serve_http-serve_grpc_example :
    let (answer, b') =
      call floats decimals secrets healthy broker update_account 0 renaming shared in
    (serve_http runtime documents
        (respond floats decimals secrets healthy broker)
        router
        0
        (http_request client update_account renaming)
        shared
      ≡ (reply (reply_of update_account answer), b'))
    × (serve_grpc transport
          (respond floats decimals secrets healthy broker)
          0
          (invoke transport update_account renaming).0
          (invoke transport update_account renaming).1
          shared
        ≡ (reply_of update_account answer, b'))
serve_http-serve_grpc_example =
    serve_http-serve_grpc floats decimals secrets healthy broker runtime documents router client
      transport update_account renaming 0 shared router-Mounts refl understood
      (carried update_account renaming) (refl, tt)
