-- ===== src/Startup/Muxes.antt =====
-- cmd/server/main.go: the routes of the two HTTP listeners, mainMux and metricsMux, as the code
-- registers them. README.md and scripts/smoke-test.sh say that /healthz and /readyz are served on
-- the metrics port only; the code serves them on the public port too, which its own comment says.
use time_series_cardinality.Base.{
  ◌≡◌, ◌≢◌, refl, sym, ◌∙◌, ap, ◌⊎◌, inl, inr, Bool, false, ◌&&◌, ◌||◌, Option, none, some, List,
  [], ◌∷◌, Bytes, lit, bytes_eq, bytes_eqb, ◌==◌, All, length, take, ltb, nat_eqb, Bool-cases,
  if◌then◌else◌,
}
use time_series_cardinality.Health
use time_series_cardinality.Health.{HttpResponse}

-- What run hands to the muxes: promhttp.Handler(), the two handlers of the package server, and the
-- gateway's own mux.
pub data Handler : Type 0 where
  promhttp healthz readyz gateway : Handler

abbrev pub Mux : Type 0
Mux = List (Bytes × Handler)

unfoldable pub ends_in_slash : Bytes → Bool
ends_in_slash [] = false
ends_in_slash (b ∷ []) = nat_eqb b b'/'
ends_in_slash (b ∷ (c ∷ bs)) = ends_in_slash (c ∷ bs)

-- http.ServeMux: a pattern that ends in a slash matches every path below it, another one only itself.
unfoldable pub matches : Bytes → Bytes → Bool
unfolding ends_in_slash length take
matches pattern path =
    pattern == path || ends_in_slash pattern && (take (length pattern) path == pattern)

-- The longest pattern that matches wins.
unfoldable pub longer : Bytes × Handler → Option (Bytes × Handler) → Bytes × Handler
unfolding length
longer (pattern, h) none = (pattern, h)
longer (pattern, h) (some (other, k)) =
    if ltb (length pattern) (length other) then (other, k) else (pattern, h)

unfoldable pub route : Mux → Bytes → Option (Bytes × Handler)
unfolding matches longer
route [] path = none
route ((pattern, h) ∷ mux) path =
    let rest = route mux path in
    if matches pattern path then some (longer (pattern, h) rest) else rest

unfoldable pub main_mux : Mux
main_mux = (lit "/healthz", healthz) ∷ (lit "/readyz", readyz) ∷ (lit "/", gateway) ∷ []

unfoldable pub metrics_mux : Mux
metrics_mux = (lit "/metrics", promhttp) ∷ (lit "/healthz", healthz) ∷ (lit "/readyz", readyz) ∷ []

-- The responses that this program writes itself, from what `ready` answers.
unfoldable pub respond : Bool → Option (Bytes × Handler) → Option HttpResponse
unfolding Health.healthz Health.readyz
respond ready (some (pattern, healthz)) = some Health.healthz
respond ready (some (pattern, readyz)) = some (Health.readyz ready)
respond ready (some (pattern, promhttp)) = none
respond ready (some (pattern, gateway)) = none
respond ready none = none

longer-cases :
    (entry : Bytes × Handler) (rest : Option (Bytes × Handler))
    → (longer entry rest ≡ entry) ⊎ (rest ≡ some (longer entry rest))
unfolding longer
longer-cases (p, k) none = inl refl
longer-cases (p, k) (some (q, j)) = elim (Bool-cases (ltb (length p) (length q))) [
  | inl below ↦ rw below (inr refl)
  | inr above ↦ rw above (inl refl)
]

own_handler : {a b c : Bytes × Handler} → a ≡ b → some b ≡ some c → a.1 ≡ c.1
own_handler {a} {b} {c} p q =
    let same : b ≡ c = cc q in ap (λ (x : Bytes × Handler). x.1) (p ∙ same)

module _ (h : Handler) where
  -- No pattern leads to the handler.
  abbrev Without : Mux → Type 0
  Without mux = All (λ (entry : Bytes × Handler). entry.1 ≢ h) mux

  route-Without :
      (mux : Mux) (path pattern : Bytes) → Without mux → route mux path ≢ some (pattern, h)
  unfolding route
  route-Without [] path pattern all found = cc found
  route-Without ((p, k) ∷ mux) path pattern all found =
      let left = route-Without mux path pattern all.1 in
      elim (Bool-cases (matches p path)) [
        | inr off ↦ left (rw off at found)
        | inl on ↦
            let best : some (longer (p, k) (route mux path)) ≡ some (pattern, h) = rw on at found in
            elim (longer-cases (p, k) (route mux path)) [
              | inl own ↦ all.0 (own_handler (sym own) best)
              | inr deeper ↦ left (deeper ∙ best)
            ]
      ]

-- The health probes get the same responses on both listeners, whatever `ready` answers; and no path
-- on the public listener reaches the metrics, and none on the other one reaches the gateway.
pub muxes_lem :
    (ready : Bool)
    → (respond ready (route main_mux (lit "/healthz")) ≡ some Health.healthz)
      × (respond ready (route metrics_mux (lit "/healthz")) ≡ some Health.healthz)
      × (respond ready (route main_mux (lit "/readyz")) ≡ some (Health.readyz ready))
      × (respond ready (route metrics_mux (lit "/readyz")) ≡ some (Health.readyz ready))
      × ((path pattern : Bytes) → route main_mux path ≢ some (pattern, promhttp))
      × ((path pattern : Bytes) → route metrics_mux path ≢ some (pattern, gateway))
unfolding respond route longer matches ends_in_slash main_mux metrics_mux bytes_eqb length take
muxes_lem ready = (
  refl,
  refl,
  refl,
  refl,
  λ path pattern.
      route-Without promhttp main_mux path pattern ((λ e. cc e), ((λ e. cc e), ((λ e. cc e), tt))),
  λ path pattern.
      route-Without gateway metrics_mux path pattern
        ((λ e. cc e), ((λ e. cc e), ((λ e. cc e), tt))),
)
