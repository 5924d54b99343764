-- ===== src/App/Traced.antt =====
-- Operations of crates/colui-app on the answers that their services give: the result, with the
-- calls of the services that the operation makes.
use colui.Prelude.{List, [], ◌∷◌, ◌++◌, Result, ok, err, Bool, if◌then◌else◌}
use colui.Domain.AppError.{AppError}

abbrev pub TracedBy : Type 0 → Type 0 → Type 0
TracedBy C A = Result AppError A × List C

module _ {C : Type 0} where
  -- A call and its answer.
  abbrev pub asks : {A : Type 0} → C → Result AppError A → TracedBy C A
  asks call answer = (answer, call ∷ [])

  abbrev pub after_calls : {A : Type 0} → List C → TracedBy C A → TracedBy C A
  after_calls calls (r, more) = (r, calls ++ more)

  -- The `?` operator.
  abbrev pub then_ask : {A B : Type 0} → TracedBy C A → (A → TracedBy C B) → TracedBy C B
  then_ask (ok a, calls) f = after_calls calls (f a)
  then_ask (err e, calls) f = (err e, calls)

  abbrev pub require : Bool → AppError → TracedBy C (Unit {0})
  require b e = (if b then ok tt else err e, [])

  -- A guard's end.
  abbrev pub releasing : {A : Type 0} → C → TracedBy C A → TracedBy C A
  releasing call (r, calls) = (r, calls ++ (call ∷ []))

-- `map_err` with a new error.
abbrev pub or_error : {A : Type 0} → Result AppError A → AppError → Result AppError A
or_error (ok a) e = ok a
or_error (err _) e = err e
