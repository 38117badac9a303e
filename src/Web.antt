-- ===== src/Web.antt =====
-- The HTTP server of app/server.go: its router, and the two pages of app/swagger/swagger.go.
pub mod Doors
use Prim.Native.String.{◌++◌}
use dbank.Prelude.{ℕ, String, Bool, true, ◌&&◌, Option, none, some, List, [], ◌∷◌, ◌==◌}
use dbank.Log.{codes, has_prefix}
use dbank.Status.{Result, ok, err}
use dbank.Service.Bank.{Bank}
use dbank.Api.{Method, Message, Reply}
use dbank.Api.Gateway.{HttpRequest, Runtime, serve_gateway}

-- What a handler gives to its http.ResponseWriter. A write that fails is only printed.
pub record Response : Type 0 where
  pub content_type : String
  pub status_code : ℕ
  pub body : String

-- html/template, which parses and executes a template, and the file that docs/apidocs.go embeds.
pub record Documents : Type 0 where
  pub execute : String → Result String
  pub api_v11_json : String

abbrev pub swagger_template : String
swagger_template =
    "\n" ++ "<html>\n" ++ "\t<head>\n"
    ++ "\t<link rel=\"stylesheet\" type=\"text/css\" href=\"https://unpkg.com/swagger-ui-dist@3/swagger-ui.css\">\n"
    ++ "\n"
    ++ "\t<script src=\"https://unpkg.com/swagger-ui-dist@3/swagger-ui-standalone-preset.js\"></script>\n"
    ++ "\t<script src=\"https://unpkg.com/swagger-ui-dist@3/swagger-ui-bundle.js\" charset=\"UTF-8\"></script>\n"
    ++ "\t</head>\n" ++ "\t<body>\n" ++ "\t<div id=\"swagger-ui\"></div>\n" ++ "\t<script>\n"
    ++ "\t\twindow.addEventListener('load', (event) => {\n"
    ++ "\t\t\tconst ui = SwaggerUIBundle({\n" ++ "\t\t\t    url: \"/swagger/v1/openapiv2.json\",\n"
    ++ "\t\t\t    dom_id: '#swagger-ui',\n" ++ "\t\t\t    presets: [\n"
    ++ "\t\t\t      SwaggerUIBundle.presets.apis,\n"
    ++ "\t\t\t      SwaggerUIBundle.SwaggerUIStandalonePreset\n" ++ "\t\t\t    ],\n"
    ++ "\t\t\t\tplugins: [\n" ++ "                \tSwaggerUIBundle.plugins.DownloadUrl\n"
    ++ "            \t],\n" ++ "\t\t\t\tdeepLinking: true,\n" ++ "\t\t\t  })\n"
    ++ "\t\t\twindow.ui = ui\n" ++ "\t\t});\n" ++ "\t</script>\n" ++ "\t</body>\n" ++ "</html>"

unfoldable pub ui : Documents → Response
ui docs = elim (docs.execute swagger_template) [
  | ok payload ↦ record {
    content_type = "text/html; charset=utf-8";
    status_code = 200;
    body = payload;
  }
  | err e ↦ record {
    content_type = "text/plain; charset=utf-8";
    status_code = 500;
    body = "Could not render Swagger";
  }
]

unfoldable pub api_v1 : Documents → Response
api_v1 docs = record {
  content_type = "application/json; charset=utf-8";
  status_code = 200;
  body = docs.api_v11_json;
}

-- A pattern of the router: a path, or all paths below one.
pub data Mask : Type 0 where
  exactly below : String → Mask

-- The three handlers of the router.
pub data Page : Type 0 where
  gateway_page ui_page api_page : Page

-- A call of router.HandleFunc, which takes any method, or of router.Get.
pub record Mount : Type 0 where
  pub http_method : Option String
  pub mask : Mask
  pub page : Page

abbrev pub mount : Option String → Mask → Page → Mount
mount http_method mask page = record { http_method = http_method; mask = mask; page = page }

abbrev pub mounts : List Mount
mounts =
    mount none (below "/dbank/") gateway_page
    ∷ mount (some "GET") (exactly "/swagger/") ui_page
    ∷ mount (some "GET") (exactly "/swagger/v1/openapiv2.json") api_page
    ∷ []

-- What chi finds for a request among the mounts.
abbrev pub Router : Type 0
Router = List Mount → HttpRequest → Option Page

-- What a client of the HTTP server gets; `unmounted` is chi's own answer.
pub data HttpReply : Type 0 where
  response : Response → HttpReply
  reply : Reply → HttpReply
  unmounted : HttpReply

module _ (rt : Runtime) (docs : Documents)
    (respond : (m : Method) → ℕ → Message m → Bank → Reply × Bank) where
  abbrev pub serve_page : Page → ℕ → HttpRequest → Bank → HttpReply × Bank
  serve_page gateway_page n req b = let (r, b') = serve_gateway rt respond n req b in (reply r, b')
  serve_page ui_page n req b = (response (ui docs), b)
  serve_page api_page n req b = (response (api_v1 docs), b)

  unfoldable pub serve_http : Router → ℕ → HttpRequest → Bank → HttpReply × Bank
  serve_http chi n req b = elim (chi mounts req) [
    | none ↦ (unmounted, b)
    | some page ↦ serve_page page n req b
  ]

-- Whether a mount is for a request.
abbrev pub covers : Mask → String → Bool
covers (exactly path) p = p == path
covers (below path) p = has_prefix (codes path) (codes p)

abbrev pub of_method : Option String → String → Bool
of_method none http_method = true
of_method (some m) http_method = m == http_method

abbrev pub takes : Mount → HttpRequest → Bool
takes t req = of_method t.http_method req.http_method && covers t.mask req.path
