-- ===== src/Facade/Lifetimes.antt =====
-- src/Provider.cpp: what a process does with its providers before the engine is finalized.
use mochi_colza.Base.{
  nat_eq, ℕ, ◌≡◌, ◌≢◌, refl, sym, ◌∙◌, subst, String, Bool, true, false, none, some, arith, inl,
  inr, Option-cases, ℤ,
}
use mochi_colza.Base.Map.{lookup}
use mochi_colza.Result.{Outcome, ok, throw, throw_std}
use mochi_colza.Backend.{Backend, Registry}
use mochi_colza.Provider.State.{Provider}
use mochi_colza.Provider.Pipelines.{Host}
use mochi_colza.Provider.Membership.{Mona}
use mochi_colza.Provider.Config.{JsonValue, process_config}
use mochi_colza.Facade.Impl.{
  Engine, Ssg, MonaSelf, Construction, built, raised, waits, destruct_impl, construct_impl,
}
use mochi_colza.Facade.Objects.{
  Owned, Process, push_callback, release, configured, destroy, set_security_token, finalize,
  construct,
}
use mochi_colza.Facade.Finalizing.{
  count, Tidy, finalize_of_Tidy, finalize_dangling, destroy-Tidy, set_security_token-Tidy,
  held-Tidy,
}

module _ {B J : Type 0} (decimal : ℤ → String) (ssg : Ssg) (self : MonaSelf) (mona : Mona)
    (fuel : ℕ) where
  callbacks-construct_impl :
      (e : Engine) (number provider_id gid : ℕ) (create_fn : Registry B J) (must_join : Bool)
      → (construct_impl decimal ssg self mona fuel e number provider_id create_fn gid
          must_join).0.callbacks
        ≡ e.callbacks
  unfolding construct_impl
  callbacks-construct_impl e number provider_id gid create_fn false = refl
  callbacks-construct_impl e number provider_id gid create_fn true =
      elim (Option-cases ssg.join_status) [
        | inl joined_ ↦ rw joined_ refl
        | inr (ret, failed_) ↦ rw failed_ refl
      ]

module _ {B J : Type 0} (backend : Backend B) (host : Host B J) (json : JsonValue J) where
  first_of :
      (a : Process B J × Outcome Unit) (v : Process B J) (r : Outcome Unit)
      → some a ≡ some (v, r)
      → (a.0 ≡ v) × (a.1 ≡ r)
  first_of a v r e = (cc, cc)

  configured-Tidy :
      (w : Process B J) (e : Engine) (this : ℕ) (impl : Owned B J) (r : Provider B J × Outcome Unit)
      → Tidy w
      → e.callbacks ≡ w.engine.callbacks
      → lookup this w.objects ≡ none
      → r.1 ≡ ok tt
      → Tidy (configured (record w { engine = push_callback this e }) this impl r).0
  unfolding configured
  configured-Tidy w e this impl (p, ok tt) tidy same_ new_ fine =
      held-Tidy w e this (record impl { provider = p }) tidy same_ new_
  configured-Tidy w e this impl (p, throw ex) tidy same_ new_ fine = absurd (cc)
  configured-Tidy w e this impl (p, throw_std what) tidy same_ new_ fine = absurd (cc)

  configured_outcome :
      (w : Process B J) (this : ℕ) (impl : Owned B J) (r : Provider B J × Outcome Unit)
      → (configured w this impl r).1 ≡ r.1
  unfolding configured
  configured_outcome w this impl (p, ok tt) = refl
  configured_outcome w this impl (p, throw ex) = refl
  configured_outcome w this impl (p, throw_std what) = refl

  configured_dangling :
      (w : Process B J) (e : Engine) (this : ℕ) (impl : Owned B J) (r : Provider B J × Outcome Unit)
      → lookup this w.objects ≡ none
      → r.1 ≢ ok tt
      → finalize (configured (record w { engine = push_callback this e }) this impl r).0 ≡ none
  unfolding configured count destruct_impl
  configured_dangling w e this impl (p, ok tt) new_ fails = absurd (fails refl)
  configured_dangling w e this impl (p, throw ex) new_ fails =
      finalize_dangling (record w { engine = release (some impl) (push_callback this e) }) this
        (ground arith) new_
  configured_dangling w e this impl (p, throw_std what) new_ fails =
      finalize_dangling (record w { engine = release (some impl) (push_callback this e) }) this
        (ground arith) new_

  -- A constructor of `Provider` whose configuration raises an exception leaves its callback in the
  -- engine, although the object is not there: the finalization writes to where it would have been.
  pub finalize-construct :
      (w v : Process B J) (this number provider_id : ℕ) (config : String) (e : Engine)
      (p : Provider B J) (raises : Outcome Unit)
      → lookup this w.objects ≡ none
      → construct backend host json w this number provider_id config (e, built p) ≡ some (v, raises)
      → raises ≢ ok tt
      → finalize v ≡ none
  unfolding construct
  finalize-construct w v this number provider_id config e p raises new_ ends fails =
      let impl : Owned B J = record { number = number; provider_id = provider_id; provider = p } in
      let pushed = record w { engine = push_callback this e } in
      let r = process_config backend host json p config in
      let v_is = first_of (configured pushed this impl r) v raises ends in
      subst (λ u. finalize u ≡ none) v_is.0
        (configured_dangling w e this impl r new_
          (λ fine. fails (sym v_is.1 ∙ (configured_outcome pushed this impl r ∙ fine))))

  -- `processConfig` raises no exception, if it comes to it.
  abbrev pub IsFine : String → Construction (Provider B J) → Type 0
  IsFine config (built p) = (process_config backend host json p config).1 ≡ ok tt
  IsFine config _ = Unit

  construct-Tidy :
      (w v : Process B J) (this number provider_id : ℕ) (config : String)
      (made : Engine × Construction (Provider B J)) (r : Outcome Unit)
      → Tidy w
      → made.0.callbacks ≡ w.engine.callbacks
      → lookup this w.objects ≡ none
      → IsFine config made.1
      → construct backend host json w this number provider_id config made ≡ some (v, r)
      → Tidy v
  unfolding construct
  construct-Tidy w v this number provider_id config (e, built p) r tidy same_ new_ fine ends =
      let impl : Owned B J = record { number = number; provider_id = provider_id; provider = p } in
      subst Tidy
        (first_of
          (configured (record w { engine = push_callback this e }) this impl
            (process_config backend host json p config))
          v r ends).0
        (configured-Tidy w e this impl (process_config backend host json p config) tidy same_ new_
          fine)
  construct-Tidy w v this number provider_id config (e, raised ex) r tidy same_ new_ fine ends =
      subst Tidy (first_of (record w { engine = e }, throw ex) v r ends).0 λ a. rw same_ (tidy a)
  construct-Tidy w v this number provider_id config (e, waits) r tidy same_ new_ fine ends =
      ground arith

  -- The programs that construct providers at new addresses, with configurations that raise no
  -- exception, destroy providers and set tokens, and move nothing.
  pub data Lives (w : Process B J) : Process B J → Type 0 where
    begins : Lives w w
    constructs :
        {v u : Process B J}
        → Lives w v
        → (decimal : ℤ → String) (ssg : Ssg) (self : MonaSelf) (mona : Mona)
          (fuel this number provider_id gid : ℕ) (create_fn : Registry B J) (must_join : Bool)
          (config : String) (r : Outcome Unit)
        → lookup this v.objects ≡ none
        → IsFine config
            (construct_impl decimal ssg self mona fuel v.engine number provider_id create_fn gid
              must_join).1
        → construct backend host json v this number provider_id config (
            construct_impl decimal ssg self mona fuel v.engine number provider_id create_fn gid
              must_join)
          ≡ some (u, r)
        → Lives w u
    destroys : {v : Process B J} → Lives w v → (this : ℕ) → Lives w (destroy v this)
    sets_token :
        {v : Process B J}
        → Lives w v
        → (this : ℕ) (token : String) → Lives w (set_security_token v this token)

  Lives-Tidy : {w v : Process B J} → Lives w v → Tidy w → Tidy v
  Lives-Tidy begins tidy = tidy
  Lives-Tidy
        (constructs {v} {u} l decimal ssg self mona fuel this number provider_id gid create_fn
          must_join config r new_ fine ends)
        tidy =
      construct-Tidy v u this number provider_id config
        (construct_impl decimal ssg self mona fuel v.engine number provider_id create_fn gid
          must_join)
        r (Lives-Tidy l tidy)
        (callbacks-construct_impl decimal ssg self mona fuel v.engine number provider_id gid
          create_fn must_join)
        new_ fine ends
  Lives-Tidy (destroys {v} l this) tidy = destroy-Tidy v this (Lives-Tidy l tidy)
  Lives-Tidy (sets_token {v} l this token) tidy =
      set_security_token-Tidy v this token (Lives-Tidy l tidy)

  -- After every such program the finalization comes to its end: each callback resets an object that
  -- is still there, and afterwards no object has a `ProviderImpl`.
  pub Lives-finalize :
      {w v : Process B J}
      → Lives w v
      → Tidy w
      → (u : Process B J) × (finalize v ≡ some u)
        × ((a : ℕ)
            → lookup a u.objects
              ≡ elim (lookup a v.objects) [ none ↦ none | some self ↦ some none ])
  Lives-finalize {v} l tidy = finalize_of_Tidy v (Lives-Tidy l tidy)
