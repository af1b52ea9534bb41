-- ===== src/Http/Served.antt =====
-- internal/infra/httpapi/router.go and middleware.go: what every request is served with.
use order_book_vibranium.Base.{◌<◌, ◌≤◌, ◌≡◌, ◌⊎◌, true, Option, none, some, List, length, ℕ}
use order_book_vibranium.Base.Bytes.{Bytes}
use order_book_vibranium.Base.Run.{Result, ok, err}
use order_book_vibranium.Store.{Session, Faults, Failure, Action, pure, ◌>>=◌}
use order_book_vibranium.Http.{Response}
use order_book_vibranium.Http.Routing.{
  Method, post, delete, Route, method_of, Request, Router, Recoverer, correlation_id, Served,
  answer,
}
use order_book_vibranium.Http.Reading.{may_write}

-- What is relied upon of chi: a request gets a route of its own method, and Recoverer passes an answer
-- on and answers a panic with 500, where nothing has been logged.
pub record IsChi (match_route : Router) (recoverer : Recoverer) : Type 0 where
  pub own_method :
      (m : Method) (path : List Bytes) (x : Route) → match_route m path ≡ ok x → method_of x ≡ m
  pub passes :
      (m : Action (Response × Option ℕ)) (faults : Faults) (s t : Session) (v : Response × Option ℕ)
      → m faults s ≡ (ok v, t)
      → recoverer m faults s ≡ (ok v, t)
  pub recovers :
      (m : Action (Response × Option ℕ)) (faults : Faults) (s t : Session) (e : Failure)
      → m faults s ≡ (err e, t)
      → recoverer m faults s ≡ (ok (answer 500, none), t)

-- The id that a request is served with: its own if that has 1 to 128 bytes, and the new one otherwise.
abbrev pub IsRequestId : Bytes → Bytes → Bytes → Type 0
IsRequestId id new_id chosen =
    (0 < length id) × (length id ≤ 128) × (chosen ≡ id)
    ⊎ ((length id ≡ 0) ⊎ (128 < length id)) × (chosen ≡ new_id)

-- How a request is answered from the session `s`.
abbrev pub IsServed : Router → Bytes → Request → Session → Result Failure Served × Session → Type 0
IsServed match_route new_id r s (err e, t) = ⊥
IsServed match_route new_id r s (ok v, t) =
    IsRequestId r.x_request_id new_id v.request_id
    × (0 < length v.request_id)
    × (length v.request_id ≤ 128)
    × ((v.logged ≡ some v.response.status) ⊎ (v.logged ≡ none) × (v.response ≡ answer 500))
    × ((may_write (match_route r.method r.path) ≡ true) ⊎ (t.db ≡ s.db))
    × ((r.method ≡ post) ⊎ (r.method ≡ delete) ⊎ (t.db ≡ s.db))

module _ (match_route : Router) (recoverer : Recoverer) (chi : IsChi match_route recoverer)
    (new_id : Bytes) (r : Request) (faults : Faults) (s : Session) (handler : Action Response) where
  -- What serve makes of an answer.
  abbrev finished : Response × Option ℕ → Served
  finished v = record {
    response = v.0;
    request_id = correlation_id r.x_request_id new_id;
    logged = v.1;
  }

  abbrev after : Result Failure (Response × Option ℕ) × Session → Result Failure Served × Session
  after q = ((λ _ _. q) >>= λ (v : Response × Option ℕ). pure (finished v)) faults s
