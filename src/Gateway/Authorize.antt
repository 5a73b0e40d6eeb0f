-- ===== src/Gateway/Authorize.antt =====
-- `authorize_url` of auth.py and `redirect_uri` of app.py: what a provider is asked for.
use opendss_designer_cloud.Base.{
  ℕ, ◌≡◌, refl, ap, ◌∙◌, String, Bool, true, false, Option, none, some, List, [], ◌∷◌, map, same,
  if◌then◌else◌,
}
use opendss_designer_cloud.Base.Text.{join}
use opendss_designer_cloud.Base.Text.Split.{split_once, is_free, split_once-join}
use opendss_designer_cloud.Base.Text.Query.{urlencode, read_query, codes, is_ascii}
use opendss_designer_cloud.Base.Text.Query.Reads.{all_ascii, bytes_of, read_query-urlencode}
use opendss_designer_cloud.Gateway.Providers.{Provider}

unfoldable pub redirect_uri : String → String → String
redirect_uri public_url provider_id = join public_url (join "/auth/" (join provider_id "/callback"))

-- What is left of the dict behind `state`.
unfoldable pub last_params : Bool → List (String × String)
last_params google =
    ("response_type", "code")
    ∷ (if google then ("access_type", "online") ∷ ("prompt", "select_account") ∷ [] else [])

unfoldable pub authorize_params : Provider → String → String → List (String × String)
authorize_params p uri state =
    ("client_id", p.client_id)
    ∷ ("redirect_uri", uri)
    ∷ ("scope", p.scope)
    ∷ ("state", state)
    ∷ last_params (same p.id "google")

unfoldable pub authorize_url : Provider → String → String → String
authorize_url p uri state =
    join p.authorize_url (String.◌∷◌ "?" (urlencode (authorize_params p uri state)))

-- The page of a URL and the parameters that its server reads.
abbrev pub query_of : Option (String × String) → Option (String × List (List ℕ × List ℕ))
query_of none = none
query_of (some (page, query)) = some (page, read_query query)

unfoldable pub asked : String → Option (String × List (List ℕ × List ℕ))
asked url = query_of (split_once "?" url)

last_params-ascii : (google : Bool) → all_ascii (last_params google) ≡ true
unfolding last_params all_ascii is_ascii
last_params-ascii true = refl
last_params-ascii false = refl

authorize_params-ascii :
    (p : Provider) (uri state : String)
    → is_ascii p.client_id ≡ true
    → is_ascii uri ≡ true
    → is_ascii p.scope ≡ true
    → is_ascii state ≡ true
    → all_ascii (authorize_params p uri state) ≡ true
unfolding authorize_params all_ascii is_ascii
authorize_params-ascii p uri state c u s t =
    rw (c, u, s, t) (last_params-ascii (same p.id "google"))

asked-join :
    (page query : String)
    → is_free "?" page ≡ true
    → asked (join page (String.◌∷◌ "?" query)) ≡ some (page, read_query query)
unfolding asked
asked-join page query f = ap query_of (split_once-join "?" page query f)

-- The page that the browser is sent to is the provider's own, and what its server reads of the query is, byte
-- for byte, the client's id, the redirect URI, the scope, the state and the answer's kind, with the two
-- settings of Google for Google alone; where the texts are ASCII and the provider's address has no question mark.
pub authorize_url-asked :
    (p : Provider) (uri state : String)
    → is_free "?" p.authorize_url ≡ true
    → is_ascii p.client_id ≡ true
    → is_ascii uri ≡ true
    → is_ascii p.scope ≡ true
    → is_ascii state ≡ true
    → asked (authorize_url p uri state)
      ≡ some (
        p.authorize_url,
        (codes "client_id", codes p.client_id)
            ∷ (codes "redirect_uri", codes uri)
            ∷ (codes "scope", codes p.scope)
            ∷ (codes "state", codes state)
            ∷ map bytes_of (last_params (same p.id "google")),
      )
unfolding authorize_url authorize_params bytes_of
authorize_url-asked p uri state f c u s t =
    asked-join p.authorize_url (urlencode (authorize_params p uri state)) f
    ∙ ap (λ q. some (p.authorize_url, q))
        (read_query-urlencode ("client_id", p.client_id)
          (("redirect_uri", uri)
            ∷ ("scope", p.scope)
            ∷ ("state", state)
            ∷ last_params (same p.id "google"))
          (authorize_params-ascii p uri state c u s t))
