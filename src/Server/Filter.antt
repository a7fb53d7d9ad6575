-- ===== src/Server/Filter.antt =====
-- class MyFilter (net/server/MyFilter.h, net/server/MyFilter.cc): a filter with the chain of the
-- filters behind `nextFilter`. `invoke` is virtual: what a filter answers for the request and its
-- context is a function of the filter. `doFilter` also tells which filters were invoked, in order.
use echo_frame.Base.{◌≡◌, refl, Bool, false, List, [], ◌∷◌, ◌++◌, if◌then◌else◌}

module _ {A : Type 0} (invoke : A → Bool) where
  -- `rv`, and the call that made it.
  abbrev next_answer : List A → Bool × List A
  next_answer [] = (false, [])
  next_answer (next ∷ rest) = (invoke next, next ∷ [])

  -- `rv && this->invoke(request, context)`
  abbrev and_this : A → Bool × List A → Bool × List A
  and_this this (rv, ran) = if rv then (invoke this, ran ++ (this ∷ [])) else (false, ran)

  -- `doFilter` of the filter at the head of a chain.
  unfoldable pub do_filter : A → List A → Bool × List A
  do_filter this behind = and_this this (next_answer behind)

  -- The order that the class comment describes: the filter at the end of the chain runs first, and
  -- one that answers false ends the run.
  unfoldable pub run_all : A → List A → Bool × List A
  run_all this [] = (invoke this, this ∷ [])
  run_all this (next ∷ rest) = and_this this (run_all next rest)

  -- `doFilter` of a filter with nothing behind it answers false without a call. Of any longer chain
  -- it runs the first two filters as the class comment describes, and calls none of the others.
  do_filter-two :
      (this next : A) (rest : List A)
      → (do_filter this [] ≡ (false, []))
        × (do_filter this (next ∷ rest) ≡ run_all this (next ∷ []))
  unfolding do_filter run_all
  do_filter-two this next rest = (refl, refl)
