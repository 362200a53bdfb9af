-- ===== src/Facade/Objects.antt =====
-- src/Provider.cpp: the objects `colza::Provider` of a process, by their addresses, the finalize
-- callbacks that they leave in the engine, and the finalization.
use mochi_colza.Base.{nat_eq, ℕ, String, Bool, true, false, Option, none, some, List, [], ◌∷◌}
use mochi_colza.Base.Map.{Map, lookup, insert, erase}
use mochi_colza.Result.{Outcome, ok, throw, throw_std}
use mochi_colza.Backend.{Backend}
use mochi_colza.Provider.State.{Provider}
use mochi_colza.Provider.Pipelines.{Host}
use mochi_colza.Provider.Config.{JsonValue, process_config}
use mochi_colza.Facade.Impl.{Engine, Construction, built, raised, waits, pop, destruct_impl}

-- A `ProviderImpl`: its number, its provider id, and its state.
pub record Owned (B J : Type 0) : Type 0 where
  pub number : ℕ
  pub provider_id : ℕ
  pub provider : Provider B J

-- `objects` has the `Provider`s that are there, each with its pointer `self`, which may be null.
pub record Process (B J : Type 0) : Type 0 where
  pub engine : Engine
  pub objects : Map ℕ (Option (Owned B J))

abbrev pub push_callback : ℕ → Engine → Engine
push_callback this e = record e { callbacks = this ∷ e.callbacks }

abbrev pub pop_callback : ℕ → Engine → Engine
pop_callback this e = record e { callbacks = pop this e.callbacks }

module _ {B J : Type 0} where
  -- The pointer goes, and the object with it.
  abbrev pub release : Option (Owned B J) → Engine → Engine
  release none e = e
  release (some impl) e = destruct_impl impl.provider_id impl.number e

  -- The rest of the constructors of `Provider`, after the callback is pushed: what `processConfig`
  -- has done. An exception destroys the member `self`.
  unfoldable pub configured :
      Process B J → ℕ → Owned B J → Provider B J × Outcome Unit → Process B J × Outcome Unit
  unfolding destruct_impl
  configured w this impl (p, ok _) =
      (record w { objects = insert this (some (record impl { provider = p })) w.objects }, ok tt)
  configured w this impl (p, throw e) =
      (record w { engine = release (some impl) w.engine }, throw e)
  configured w this impl (p, throw_std what) =
      (record w { engine = release (some impl) w.engine }, throw_std what)

  -- Provider::Provider(Provider&&)
  unfoldable pub move_construct : Process B J → ℕ → ℕ → Process B J
  unfolding pop
  move_construct w this other = elim (lookup other w.objects) [
    | none ↦ w
    | some none ↦ record w { objects = insert this none w.objects }
    | some (some impl) ↦ record w {
      engine = push_callback this (pop_callback this w.engine);
      objects = insert this (some impl) (insert other none w.objects);
    }
  ]

  -- Provider::~Provider, and the destructor of the member `self`.
  unfoldable pub destroy : Process B J → ℕ → Process B J
  unfolding pop destruct_impl
  destroy w this = elim (lookup this w.objects) [
    | none ↦ w
    | some none ↦ record w { objects = erase this w.objects }
    | some (some impl) ↦ record w {
      engine = release (some impl) (pop_callback this w.engine);
      objects = erase this w.objects;
    }
  ]

  -- Provider::operator bool, and Provider::setSecurityToken
  unfoldable pub is_valid : Process B J → ℕ → Bool
  is_valid w this = elim (lookup this w.objects) [ some (some impl) ↦ true | _ ↦ false ]

  unfoldable pub set_security_token : Process B J → ℕ → String → Process B J
  set_security_token w this token = elim (lookup this w.objects) [
    | some (some impl) ↦ record w {
      objects =
          insert this (some (record impl { provider = record impl.provider { token = token } }))
            w.objects;
    }
    | _ ↦ w
  ]

  -- `p->self.reset()`, where there is an object at the address.
  unfoldable pub reset : Process B J → ℕ → Option (Owned B J) → Process B J
  unfolding destruct_impl
  reset w this self = record w {
    engine = release self w.engine;
    objects = insert this none w.objects;
  }

  -- What the engine, which is thallium's, documents of its finalization: it runs the callbacks, newest
  -- first. `none` is a callback that resets a member of an object that is no
  -- longer there.
  unfoldable pub run_callbacks : List ℕ → Process B J → Option (Process B J)
  unfolding reset
  run_callbacks [] w = some w
  run_callbacks (this ∷ callbacks) w = elim (lookup this w.objects) [
    | none ↦ none
    | some self ↦ run_callbacks callbacks (reset w this self)
  ]

  -- The same: the finalization runs the callbacks and forgets them.
  unfoldable pub finalize : Process B J → Option (Process B J)
  unfolding run_callbacks
  finalize w =
      run_callbacks w.engine.callbacks (record w { engine = record w.engine { callbacks = [] } })

-- Provider::getConfig
pub get_config : String
get_config = "{}"

module _ {B J : Type 0} (backend : Backend B) (host : Host B J) (json : JsonValue J) where
  -- The constructors of `Provider`, after the one of `ProviderImpl`. `none` is one that has not ended.
  unfoldable pub construct :
      Process B J
      → ℕ
      → ℕ
      → ℕ
      → String
      → Engine × Construction (Provider B J)
      → Option (Process B J × Outcome Unit)
  unfolding configured process_config
  construct w this number provider_id config (e, built p) = some (
      configured (record w { engine = push_callback this e }) this
        (record { number = number; provider_id = provider_id; provider = p })
        (process_config backend host json p config))
  construct w this number provider_id config (e, raised ex) =
      some (record w { engine = e }, throw ex)
  construct w this number provider_id config (e, waits) = none
