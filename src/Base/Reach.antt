-- ===== src/Base/Reach.antt =====
-- What a relation reaches in any number of steps.
module _ {T : Type 0} where
  pub data Reach (Step : T → T → Type 0) : T → T → Type 0 where
    here : {t : T} → Reach Step t t
    next : {t u v : T} → Step t u → Reach Step u v → Reach Step t v

  pub Reach-trans :
      {Step : T → T → Type 0} {t u v : T} → Reach Step t u → Reach Step u v → Reach Step t v
  Reach-trans here k = k
  Reach-trans (next e h) k = next e (Reach-trans h k)
