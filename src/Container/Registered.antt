-- ===== src/Container/Registered.antt =====
-- Registration in app/core/container.py, and what it means for the next resolution.
use korea_public_data_be.Base.{ℕ, suc, false, Option, some, String, string_eq, elem, ◌≡◌, refl}
use korea_public_data_be.Container.Action.{Result, ok, err}
use korea_public_data_be.Dict
use korea_public_data_be.Dict.{Dict}
use korea_public_data_be.Container.Defs.{
  register_class, register_instance, service_binding, singleton, Callable, Container, Kwargs,
  resolve,
}
use korea_public_data_be.Container.Reuse.{resolve-kept}

module _ {Obj : Type 0} where
  -- The container of a registration that was accepted.
  abbrev accepted : Container Obj → Result (Container Obj) → Container Obj
  accepted s (ok r) = r
  accepted s (err e) = s

module _ {Obj : Type 0} (build : ℕ → Callable → Kwargs Obj → Option Obj) where
  -- register_instance is accepted, and then the type, unless it is being resolved, is resolved
  -- to the given object, without calling a constructor, whatever was registered or kept before.
  pub register_instance_resolved :
      (m : ℕ) (t : String) (s : Container Obj) (o : Obj)
      → elem t s.resolution_stack ≡ false
      → (r : Container Obj) × (register_instance s t o ≡ ok r)
        × (resolve build (suc m) t r ≡ (ok o, r))
  unfolding register_instance service_binding
  register_instance_resolved m t s o out = (
    _,
    refl,
    resolve-kept build m t _ _ o (Dict.get-put_self s.bindings t _)
        (Dict.get-put_self s.singletons t o) out,
  )

  -- Registering another class for a type whose singleton is kept is accepted, and does not show:
  -- the type, unless it is being resolved, is still resolved to the old object, and nothing changes.
  pub register_class_stale :
      (m : ℕ) (t : String) (s : Container Obj) (c : Callable) (o : Obj)
      → elem t s.resolution_stack ≡ false
      → Dict.get s.singletons t ≡ some o
      → (r : Container Obj) × (register_class singleton s t c ≡ ok r)
        × (resolve build (suc m) t r ≡ (ok o, r))
  unfolding register_class service_binding
  register_class_stale m t s c o out old =
      (_, refl, resolve-kept build m t _ _ o (Dict.get-put_self s.bindings t _) old out)
