-- ===== src/Gateway/Trust.antt =====
-- What a worker can trust in the headers that the gateway sends it.
use mathlib.Core.Option.{some-injective}
use opendss_designer_cloud.Base.{
  ℕ, ◌≡◌, refl, ap, sym, subst, ◌∙◌, String, true, false, Option, none, some, List, [], ◌∷◌, ◌++◌,
  arith, same, same_iff, same_refl, same_ne, if◌then◌else◌, All, Bool-cases, inl, inr,
}
use opendss_designer_cloud.Base.Text.{lower}
use opendss_designer_cloud.Billing.{member}
use opendss_designer_cloud.Config.{Config}
use opendss_designer_cloud.Gateway.Headers.{
  HeaderValue, received, limits_json, request_id, Headers, Items, hop_by_hop, private_headers,
  set_header, get_header, is_forwarded, forward, plan_block, with_limits, upstream_headers,
}
use opendss_designer_cloud.Gateway.Messages.{Fixed, PlanBlock}
use opendss_designer_cloud.Gateway.Providers.{Provider}
use opendss_designer_cloud.Gateway.Plans.{Plan}

-- Where each value comes from: what came with the request stands under no spelling of the limits header,
-- of a private header or of a hop-by-hop header.
abbrev pub Trusted : String → List (String × ℕ) → String → String × HeaderValue → Type 0
Trusted header limits id (k, received s) =
    (same (lower k) (lower header) ≡ false)
    × (member (lower k) private_headers ≡ false)
    × (member (lower k) hop_by_hop ≡ false)
Trusted header limits id (k, limits_json l b) = (k ≡ header) × (l ≡ limits)
Trusted header limits id (k, request_id r) = (k ≡ "X-Request-ID") × (r ≡ id)

module _ (P : String × HeaderValue → Type 0) where
  set_header-All :
      (h : Headers) (k : String) (v : HeaderValue) → All P h → P (k, v) → All P (set_header h k v)
  unfolding set_header
  set_header-All [] k v a p = (p, tt)
  set_header-All ((j, w) ∷ h) k v a p = elim (Bool-cases (same j k)) [
    | inl e ↦ rw e (subst (λ x. P (x, v)) (sym ((same_iff j k).0 e)) p, a.1)
    | inr e ↦ rw e (a.0, set_header-All h k v a.1 p)
  ]

  forward-All :
      (limits_key : String) (out : Headers) (items : Items)
      → ((k v : String) → is_forwarded limits_key k ≡ true → P (k, received v))
      → All P out
      → All P (forward limits_key out items)
  unfolding forward
  forward-All key out [] f a = a
  forward-All key out ((k, v) ∷ items) f a = elim (Bool-cases (is_forwarded key k)) [
    | inl e ↦ rw e (
        forward-All key (set_header out k (received v)) items f
          (set_header-All out k (received v) a (f k v e)))
    | inr e ↦ rw e (forward-All key out items f a)
  ]

forwarded :
    (header k : String)
    → is_forwarded (lower header) k ≡ true
    → (same (lower k) (lower header) ≡ false)
      × (member (lower k) private_headers ≡ false)
      × (member (lower k) hop_by_hop ≡ false)
unfolding is_forwarded
forwarded header k h = ground arith

pub get_header-set_header :
    (h : Headers) (k j : String) (v : HeaderValue)
    → get_header (set_header h k v) j ≡ (if same k j then some v else get_header h j)
unfolding get_header set_header
get_header-set_header [] k j v = refl
get_header-set_header ((i, w) ∷ h) k j v =
    ground (arith, same_iff k j, same_iff i k, same_iff i j, get_header-set_header h k j v)

with_limits_lem :
    (header id : String) (p : Plan) (out : Headers) (o : Option PlanBlock) (h : Headers)
    → with_limits header id p out o ≡ some h
    → (b : PlanBlock) × (o ≡ some b)
      × (set_header (set_header out header (limits_json p.limits b)) "X-Request-ID" (request_id id)
          ≡ h)
with_limits_lem header id p out none h e = cc
with_limits_lem header id p out (some b) h e = (b, refl, some-injective _ h e)

module _ {F : Type 0} (fixed : Fixed) (cfg : Config F) (ps : List Provider) (items : Items)
    (p : Plan) (used : ℕ) (id : String) (h : Headers)
    (made : upstream_headers fixed cfg ps items p used id ≡ some h) where
  abbrev sent : PlanBlock → Headers
  sent b =
      set_header
        (set_header (forward (lower cfg.limits_header) [] items) cfg.limits_header
          (limits_json p.limits b))
        "X-Request-ID" (request_id id)

  headers_sent : (b : PlanBlock) × (plan_block fixed cfg ps p used ≡ some b) × (sent b ≡ h)
  unfolding upstream_headers
  headers_sent =
      with_limits_lem cfg.limits_header id p (forward (lower cfg.limits_header) [] items)
        (plan_block fixed cfg ps p used) h made

  -- The headers of a call, of any request: no value that came with the request stands under the limits
  -- header, under "cookie" or "authorization", or under a hop-by-hop header, in any spelling; limits
  -- stand under the limits header alone and are the plan's, and the id that is written is the call's.
  pub headers-Trusted : All (Trusted cfg.limits_header p.limits id) h
  headers-Trusted =
      let (b, e, same_headers) = headers_sent in
      subst (All (Trusted cfg.limits_header p.limits id)) same_headers (
        set_header-All (Trusted cfg.limits_header p.limits id) _ "X-Request-ID" (request_id id)
          (set_header-All (Trusted cfg.limits_header p.limits id) _ cfg.limits_header
            (limits_json p.limits b)
            (forward-All (Trusted cfg.limits_header p.limits id) (lower cfg.limits_header) [] items
              (λ k v f. forwarded cfg.limits_header k f) tt)
            (refl, refl))
          (refl, refl))

  -- Under the limits header a worker finds the limits of the caller's plan with the plan's block.
  pub limits_sent :
      same cfg.limits_header "X-Request-ID" ≡ false
      → (b : PlanBlock) × (plan_block fixed cfg ps p used ≡ some b)
        × (get_header h cfg.limits_header ≡ some (limits_json p.limits b))
  limits_sent n =
      let (b, e, same_headers) = headers_sent in
      let ne_flip : same "X-Request-ID" cfg.limits_header ≡ false = ground (
        arith,
        same_iff "X-Request-ID" cfg.limits_header,
        same_iff cfg.limits_header "X-Request-ID",
      ) in
      (
        b,
        e,
        ap (λ x. get_header x cfg.limits_header) (sym same_headers)
            ∙ get_header-set_header _ "X-Request-ID" cfg.limits_header (request_id id)
            ∙ rw
                (
                  ne_flip,
                  get_header-set_header (forward (lower cfg.limits_header) [] items)
                      cfg.limits_header cfg.limits_header (limits_json p.limits b),
                  same_refl cfg.limits_header,
                )
                refl,
      )

forward-append :
    (key : String) (out : Headers) (xs ys : Items)
    → forward key out (xs ++ ys) ≡ forward key (forward key out xs) ys
unfolding forward
forward-append key out [] ys = refl
forward-append key out ((k, v) ∷ xs) ys =
    forward-append key (if is_forwarded key k then set_header out k (received v) else out) xs ys

forward-x_request_id :
    (key : String) (out : Headers) (v : String)
    → same "x-request-id" key ≡ false
    → forward key out (("x-request-id", v) ∷ []) ≡ set_header out "x-request-id" (received v)
unfolding forward is_forwarded member lower same
forward-x_request_id key out v h = rw h refl

id_kept :
    (out : Headers) (header v id : String) (w : HeaderValue)
    → same header "x-request-id" ≡ false
    → let h =
        set_header
          (set_header (set_header out "x-request-id" (received v)) header w)
          "X-Request-ID"
          (request_id id) in
      (get_header h "x-request-id" ≡ some (received v))
      × (get_header h "X-Request-ID" ≡ some (request_id id))
unfolding same
id_kept out header v id w n =
    let first = set_header out "x-request-id" (received v) in
    let second = set_header first header w in
    (
      get_header-set_header second "X-Request-ID" "x-request-id" (request_id id)
          ∙ get_header-set_header first header "x-request-id" w
          ∙ rw n (get_header-set_header out "x-request-id" "x-request-id" (received v)),
      get_header-set_header second "X-Request-ID" "X-Request-ID" (request_id id),
    )

other_header :
    (header : String)
    → same "x-request-id" (lower header) ≡ false
    → same header "x-request-id" ≡ false
unfolding lower same
other_header header n =
    same_ne header "x-request-id" (λ e. cc (ap (λ x. same "x-request-id" (lower x)) e, n))

-- A request's own header "x-request-id", in the lower case in which the server hands it on, reaches
-- the worker as it came, whatever is in it, beside the id of the call.
pub received_id_kept :
    {F : Type 0} (fixed : Fixed) (cfg : Config F) (ps : List Provider) (items : Items) (v : String)
    (p : Plan) (used : ℕ) (id : String) (h : Headers)
    → same "x-request-id" (lower cfg.limits_header) ≡ false
    → upstream_headers fixed cfg ps (items ++ ("x-request-id", v) ∷ []) p used id ≡ some h
    → (get_header h "x-request-id" ≡ some (received v))
      × (get_header h "X-Request-ID" ≡ some (request_id id))
received_id_kept fixed cfg ps items v p used id h n made =
    let key = lower cfg.limits_header in
    let (b, e, same_headers) =
      headers_sent fixed cfg ps (items ++ ("x-request-id", v) ∷ []) p used id h made in
    let out = forward key [] items in
    subst
      (λ x.
        (get_header x "x-request-id" ≡ some (received v))
        × (get_header x "X-Request-ID" ≡ some (request_id id)))
      (ap
          (λ x.
            set_header (set_header x cfg.limits_header (limits_json p.limits b)) "X-Request-ID"
              (request_id id))
          (sym (
            forward-append key [] items (("x-request-id", v) ∷ [])
            ∙ forward-x_request_id key out v n))
        ∙ same_headers)
      (id_kept out cfg.limits_header v id (limits_json p.limits b)
        (other_header cfg.limits_header n))
