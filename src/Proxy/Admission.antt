-- ===== src/Proxy/Admission.antt =====
-- src/api/v1.rs: what an admitted request satisfies.
use skyport.Prelude.{
  ℕ, ◌+◌, ◌≤◌, ◌≡◌, refl, sym, subst, ◌∙◌, ◌⊎◌, inl, inr, Bool, true, false, ◌&&◌, none, some,
  arith, ◌==◌, if◌then◌else◌, Bool-cases, Option-cases, Text, codes, text_eq, text_eq_refl,
  text_eq_iff, Result, Result-cases, ok, err,
}
use skyport.Json.{
  Json, Fields, bool, nint, float, arr, obj, null, end, field, uint, str, get, get_field, set_field,
  as_u64, set_key,
}
use skyport.RateLimiter.{RateLimiter, Exceeded, Status, check_global}
use skyport.Router.{Router, resolve_model}
use skyport.Proxy.{
  AdmitError, Admitted, rate_limit_exceeded, concurrency_limit, is_invalid_model, number_at,
  exceeds_token_limit, has_usd_budget, limit_tokens, as_admitted, check_request, keep_permit,
  after_limit, admit,
}

get-set_field :
    (k j : Text) (v : Json) (fs : Fields)
    → get_field j (set_field k v fs) ≡ (if text_eq k j then some v else get_field j fs)
unfolding get_field set_field
get-set_field k j v end = refl
get-set_field k j v (field i w fs) =
    ground (arith, text_eq_iff k j, text_eq_iff i k, text_eq_iff i j, get-set_field k j v fs)

-- What a key reads after a write that did not panic.
get-set_key :
    (k j : Text) (v body body' : Json)
    → set_key k v body ≡ some body'
    → get j body' ≡ (if text_eq k j then some v else get j body)
unfolding set_key get
get-set_key k j v (obj fs) body' h =
    let e : obj (set_field k v fs) ≡ body' = ground arith in
    subst (λ b. get j b ≡ (if text_eq k j then some v else get_field j fs)) e
      (get-set_field k j v fs)
get-set_key k j v null body' h =
    let e : obj (field k v end) ≡ body' = ground arith in
    subst (λ b. get j b ≡ (if text_eq k j then some v else none)) e refl
get-set_key k j v (bool b) body' h = ground arith
get-set_key k j v (uint n) body' h = ground arith
get-set_key k j v (nint n) body' h = ground arith
get-set_key k j v (float n) body' h = ground arith
get-set_key k j v (str t) body' h = ground arith
get-set_key k j v (arr xs) body' h = ground arith

number_at-set_key :
    (k j : Text) (v body body' : Json)
    → set_key k v body ≡ some body'
    → number_at j body' ≡ (if text_eq k j then as_u64 v else number_at j body)
number_at-set_key k j v body body' h = ground (arith, get-set_key k j v body body' h)

-- The token limit of a budgeted request is set, and within the bound.
limit_tokens-le :
    (path : Text) (body limited : Json)
    → exceeds_token_limit body ≡ false
    → limit_tokens true path body ≡ some limited
    → (text_eq path (codes "embeddings") ≡ true)
      ⊎ ((n : ℕ) × (number_at (codes "max_tokens") limited ≡ some n) × (n ≤ 32_768))
unfolding limit_tokens exceeds_token_limit as_u64
limit_tokens-le path body limited small h = elim (Bool-cases (text_eq path (codes "embeddings"))) [
  | inl e ↦ inl e
  | inr e ↦ elim (Option-cases (number_at (codes "max_tokens") body)) [
    | inl en ↦
        let wrote : set_key (codes "max_tokens") (uint 4096) body ≡ some limited =
          ground (arith, e, en, h) in
        inr (
          4096,
          number_at-set_key (codes "max_tokens") (codes "max_tokens") (uint 4096) body limited wrote
              ∙ rw (text_eq_refl (codes "max_tokens")),
          ground arith,
        )
    | inr (n, en) ↦
        let same : body ≡ limited = ground (arith, e, en, h) in
        inr (
          n,
          subst (λ b. number_at (codes "max_tokens") b ≡ some n) same en,
          ground (arith, en, small),
        )
  ]
]

-- What an admitted request satisfies.
abbrev pub IsAdmitted : Router ℕ → Text → Text → Bool → Admitted → Type 0
IsAdmitted router model path stream a =
    (is_invalid_model model ≡ false)
    × (resolve_model router model ≡ ok (a.provider, a.actual_model))
    × (get (codes "model") a.body ≡ some (str a.actual_model))
    × (a.gated ≡ has_usd_budget router.config.budgets a.provider)
    × ((a.gated ≡ false)
        ⊎ ((stream ≡ false)
            × ((text_eq path (codes "embeddings") ≡ true)
                ⊎ ((n : ℕ) × (number_at (codes "max_tokens") a.body ≡ some n) × (n ≤ 32_768)))))

-- The last steps, for a name that resolves.
IsAdmitted-routed :
    (router : Router ℕ) (model path provider actual_model : Text) (body limited routed : Json)
    (stream budgeted : Bool)
    → is_invalid_model model ≡ false
    → exceeds_token_limit body ≡ false
    → resolve_model router model ≡ ok (provider, actual_model)
    → has_usd_budget router.config.budgets provider ≡ budgeted
    → budgeted && stream ≡ false
    → limit_tokens budgeted path body ≡ some limited
    → set_key (codes "model") (str actual_model) limited ≡ some routed
    → IsAdmitted router model path stream (as_admitted provider actual_model budgeted routed)
unfolding text_eq
IsAdmitted-routed router model path provider actual_model body limited routed stream false hm ht hr
      hb hs hl hk =
    (
      hm,
      hr,
      get-set_key (codes "model") (codes "model") (str actual_model) limited routed hk,
      sym hb,
      inl refl,
    )
IsAdmitted-routed router model path provider actual_model body limited routed stream true hm ht hr
      hb hs hl hk =
    (
      hm,
      hr,
      get-set_key (codes "model") (codes "model") (str actual_model) limited routed hk,
      sym hb,
      inr (
        hs,
        elim (limit_tokens-le path body limited ht hl) [
          | inl e ↦ inl e
          | inr (n, e, le) ↦ inr (
            n,
            number_at-set_key (codes "model") (codes "max_tokens") (str actual_model) limited routed
                  hk
                ∙ e,
            le,
          )
        ],
      ),
    )

-- A request that passes the checks has a valid model name, which the router resolves to the provider
-- and the model that the body names; the budget gate is held exactly for a provider with a cap, and
-- then the answer is not streamed and, unless embeddings are asked for, the body bounds the tokens
-- by 32768.
pub check_request-IsAdmitted :
    (router : Router ℕ) (model path : Text) (body : Json) (stream : Bool) (a : Admitted)
    → check_request router model body path stream ≡ ok a
    → IsAdmitted router model path stream a
unfolding check_request
check_request-IsAdmitted router model path body stream a h =
    elim (Result-cases (resolve_model router model)) [
      | inr (e, er) ↦ ground (arith, er, h)
      | inl (resolved, er) ↦
          let budgeted = has_usd_budget router.config.budgets resolved.0 in
          elim (Option-cases (limit_tokens budgeted path body)) [
            | inl el ↦ ground (arith, er, el, h)
            | inr (limited, el) ↦
                elim (Option-cases (set_key (codes "model") (str resolved.1) limited)) [
                  | inl ek ↦ ground (arith, er, el, ek, h)
                  | inr (routed, ek) ↦
                      let same : as_admitted resolved.0 resolved.1 budgeted routed ≡ a =
                        ground (arith, er, el, ek, h) in
                      subst (IsAdmitted router model path stream) same (
                        IsAdmitted-routed router model path resolved.0 resolved.1 body limited
                          routed stream budgeted (ground (arith, h)) (ground (arith, h)) er refl
                          (ground (arith, er, h)) el ek)
                ]
          ]
    ]

-- What an answer does to the permits, given what the checks say.
abbrev pub Permits :
    ℕ → Result AdmitError Admitted → (RateLimiter × ℕ) × Result AdmitError Admitted → Type 0
Permits permits checked (state, answer) =
    ((e : AdmitError) × (answer ≡ err e) × (state.1 ≡ permits))
    ⊎ ((a : Admitted) × (answer ≡ ok a) × (checked ≡ ok a) × (state.1 + 1 ≡ permits))

Permits-keep_permit :
    (limiter : RateLimiter) (permits : ℕ) (checked : Result AdmitError Admitted)
    → (permits == 0) ≡ false
    → Permits permits checked (keep_permit limiter permits checked)
Permits-keep_permit limiter permits (ok a) h = inr (a, refl, refl, ground arith)
Permits-keep_permit limiter permits (err e) h = inl (e, refl, refl)

Permits-after_limit :
    (router : Router ℕ) (permits : ℕ) (model path : Text) (body : Json) (stream : Bool)
    (limited : RateLimiter × Result Exceeded Status)
    → Permits permits
        (check_request router model body path stream)
        (after_limit router permits model body path stream limited)
unfolding after_limit
Permits-after_limit router permits model path body stream (limiter, err e) =
    inl (rate_limit_exceeded e, refl, refl)
Permits-after_limit router permits model path body stream (limiter, ok status) =
    elim (Bool-cases (permits == 0)) [
      | inl e ↦ rw e (inl (concurrency_limit, refl, refl))
      | inr e ↦
          rw e (Permits-keep_permit limiter permits (check_request router model body path stream) e)
    ]

-- Either the request is turned away and every permit is free again, or it is admitted, has passed
-- the checks, and one permit is taken.
pub admit-Permits :
    (router : Router ℕ) (limiter : RateLimiter) (permits now : ℕ) (model path : Text) (body : Json)
    (stream : Bool)
    → Permits permits
        (check_request router model body path stream)
        (admit router limiter permits now model body path stream)
unfolding admit
admit-Permits router limiter permits now model path body stream =
    Permits-after_limit router permits model path body stream (
      if router.config_poisoned
      then check_global limiter now none none
      else check_global limiter now router.config.rate_limit.max_rpm
          router.config.rate_limit.max_rps)
