-- ===== src/ApplicationAgent/Endpoints.antt =====
-- The registration of application agents for endpoints in core/dtn7/src/core/mod.rs.
use dtn7_rs.Prelude.{◌≡◌, refl, true, false, ◌||◌, List, [], ◌∷◌, ◌++◌, Eq, ◌==◌, ==_refl, arith}
use dtn7_rs.ApplicationAgent.{
  ApplicationAgent, is_in_endpoints, register_application_agent, unregister_application_agent,
}

module _ {E B : Type 0} ⦃eq : Eq E⦄ where
  -- No endpoint has two agents.
  unfoldable pub AreSeparate : List (ApplicationAgent E B) → Type 0
  AreSeparate [] = Unit
  AreSeparate (aa ∷ aas) = (is_in_endpoints aa.eid aas ≡ false) × AreSeparate aas

  in-append :
      (eid : E) (aa : ApplicationAgent E B) (aas : List (ApplicationAgent E B))
      → is_in_endpoints eid (aas ++ aa ∷ []) ≡ (is_in_endpoints eid aas || eid == aa.eid)
  unfolding is_in_endpoints
  in-append eid aa [] = ground arith
  in-append eid aa (x ∷ aas) = ground (arith, in-append eid aa aas)

  append-AreSeparate :
      (aa : ApplicationAgent E B) (aas : List (ApplicationAgent E B))
      → AreSeparate aas
      → is_in_endpoints aa.eid aas ≡ false
      → AreSeparate (aas ++ aa ∷ [])
  unfolding AreSeparate is_in_endpoints
  append-AreSeparate aa [] h k = ground arith
  append-AreSeparate aa (x ∷ aas) h k = (
    ground (arith, in-append x.eid aa aas, eq.same_iff x.eid aa.eid, eq.same_iff aa.eid x.eid),
    append-AreSeparate aa aas h.1 (ground arith),
  )

  in-unregister :
      (eid gone : E) (aas : List (ApplicationAgent E B))
      → is_in_endpoints eid aas ≡ false
      → is_in_endpoints eid (unregister_application_agent gone aas) ≡ false
  unfolding is_in_endpoints unregister_application_agent
  in-unregister eid gone [] h = h
  in-unregister eid gone (aa ∷ aas) h = ground (arith, in-unregister eid gone aas)

  unregister-AreSeparate :
      (gone : E) (aas : List (ApplicationAgent E B))
      → AreSeparate aas
      → AreSeparate (unregister_application_agent gone aas)
  unfolding AreSeparate unregister_application_agent
  unregister-AreSeparate gone [] h = ground arith
  unregister-AreSeparate gone (aa ∷ aas) h =
      ground (arith, unregister-AreSeparate gone aas, in-unregister aa.eid gone aas)

  unregister-gone :
      (gone : E) (aas : List (ApplicationAgent E B))
      → AreSeparate aas
      → is_in_endpoints gone (unregister_application_agent gone aas) ≡ false
  unfolding AreSeparate is_in_endpoints unregister_application_agent
  unregister-gone gone [] h = refl
  unregister-gone gone (aa ∷ aas) h =
      ground (arith, unregister-gone gone aas, eq.same_iff aa.eid gone, eq.same_iff gone aa.eid)

  register-AreSeparate :
      (aa : ApplicationAgent E B) (aas : List (ApplicationAgent E B))
      → AreSeparate aas
      → AreSeparate (register_application_agent aa aas)
  unfolding register_application_agent
  register-AreSeparate aa aas h = ground (arith, append-AreSeparate aa aas h)

  -- If no endpoint has two agents, registering and unregistering keep it so; a registered
  -- endpoint has an agent, and an unregistered endpoint has none.
  pub register-unregister :
      (aa : ApplicationAgent E B) (gone : E) (aas : List (ApplicationAgent E B))
      → AreSeparate aas
      → let added = register_application_agent aa aas in
        let left = unregister_application_agent gone aas in
        AreSeparate added
        × AreSeparate left
        × (is_in_endpoints aa.eid added ≡ true)
        × (is_in_endpoints gone left ≡ false)
  unfolding register_application_agent
  register-unregister aa gone aas h = (
    register-AreSeparate aa aas h,
    unregister-AreSeparate gone aas h,
    ground (arith, in-append aa.eid aa aas, ==_refl aa.eid),
    unregister-gone gone aas h,
  )
