-- ===== src/Health.antt =====
-- internal/server/health.go and internal/server/interceptor.go: the two health handlers, the
-- readiness that cmd/server/main.go wires to them, and the metrics of every unary call.
pub mod Readiness
use time_series_cardinality.Base.{ℕ, Bool, List, [], ◌∷◌, ◌++◌, Bytes, lit, if◌then◌else◌}
use time_series_cardinality.Errors.{Result}
use time_series_cardinality.Sketch.{SketchOps, Algorithm}
use time_series_cardinality.Node.{Node, RaftStatus, status}

pub record HttpResponse : Type 0 where
  pub code : ℕ
  pub body : Bytes

-- s and a newline
abbrev line : Bytes → Bytes
line s = s ++ 10 ∷ []

unfoldable pub healthz : HttpResponse
healthz = record { code = 200; body = line (lit "ok") }

-- http.Error writes its text and one more newline.
unfoldable pub readyz : Bool → HttpResponse
readyz ready =
    if ready
    then record { code = 200; body = line (lit "ready") }
    else record { code = 503; body = line (line (lit "not ready")) }

-- The function `ready` of run: this node leads.
unfoldable pub is_ready :
    (o : SketchOps) (alg : Algorithm o) (Db Storage : Type 0)
    → RaftStatus
    → Node o alg Db Storage
    → Bool
unfolding status
is_ready o alg Db Storage st n = (status o alg Db Storage st n).1.0

-- An observation of the interceptor: the method and the status code, for its counter and its
-- histogram alike.
pub record Call : Type 0 where
  pub full_method : Bytes
  pub code : Bytes

-- `code_of` is status.Code(err).String(), where err may be nil.
unfoldable pub unary_metrics_interceptor :
    {A S : Type 0}
    → (Result A → Bytes)
    → Bytes
    → (S → Result A × S)
    → S × List Call
    → Result A × (S × List Call)
unary_metrics_interceptor code_of full_method handler (s, calls) =
    let (r, t) = handler s in
    (r, (t, calls ++ record { full_method = full_method; code = code_of r } ∷ []))
