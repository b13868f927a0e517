-- ===== src/Gc/Rooted.antt =====
-- The roots that `collect_cycles` of crates/yps-vm/src/vm.rs pushes are exactly those of the machine.
use mathlib.Core.List.{Memᴰ}
use mathlib.Core.List.Memᴰ
use mathlib.Core.Path.{subst}
use yoptascript_rs.Prelude.{ℕ, ◌≡◌, refl, sym, ap, ◌∙◌, some, List, inl, inr, [], ◌∷◌, map, String}
use yoptascript_rs.Gc.Heap.{Value, CallFrame, function, class}
use yoptascript_rs.Gc.Mark.{Work, value, upvalue, values, optional}
use yoptascript_rs.Gc.Sweep.{Vm, roots, frame_roots, module_roots, task_roots}
use yoptascript_rs.Gc.Listed.{
  AllListed, nil-AllListed, cons-AllListed, append-AllListed, map-AllListed, optional-AllListed,
  mem-optional,
}
use yoptascript_rs.Gc.Walks.{
  IsRoot, on_stack, frame_closure, frame_owner, global, open_upvalue, yielded, disposable, exported,
  module_export, microtask, macrotask,
}

-- Every root that is listed is a root, and every root is listed.
module _ (P : Work → Type 0) where
  frames-AllListed :
      (fs : List CallFrame)
      → ((f : CallFrame) → Memᴰ f fs → P (value (function f.closure)))
      → ((f : CallFrame) (a : ℕ) → Memᴰ f fs → f.owner ≡ some a → P (value (class a)))
      → AllListed P (frame_roots fs)
  frames-AllListed [] closures owners = nil-AllListed
  frames-AllListed (f ∷ fs) closures owners = cons-AllListed (closures f (Memᴰ.head refl)) (
      append-AllListed (optional (λ a. value (class a)) f.owner)
        (optional-AllListed (λ a. value (class a)) f.owner (λ a e. owners f a (Memᴰ.head refl) e))
        (frames-AllListed fs (λ g m. closures g (Memᴰ.tail m))
          (λ g a m e. owners g a (Memᴰ.tail m) e)))

  modules-AllListed :
      (ms : List (String × List (String × Value)))
      → ((path n : String) (v : Value) (es : List (String × Value))
          → Memᴰ (path, es) ms
          → Memᴰ (n, v) es
          → P (value v))
      → AllListed P (module_roots ms)
  modules-AllListed [] all = nil-AllListed
  modules-AllListed ((path, es) ∷ ms) all =
      append-AllListed (map (λ (e : String × Value). value e.1) es)
        (map-AllListed (λ (e : String × Value). value e.1) es
          (λ e m. all path e.0 e.1 es (Memᴰ.head refl) m))
        (modules-AllListed ms (λ q n v fs h m. all q n v fs (Memᴰ.tail h) m))

  tasks-AllListed :
      (ts : List (List Value))
      → ((v : Value) (vs : List Value) → Memᴰ vs ts → Memᴰ v vs → P (value v))
      → AllListed P (task_roots ts)
  tasks-AllListed [] all = nil-AllListed
  tasks-AllListed (vs ∷ ts) all =
      append-AllListed (values vs) (map-AllListed value vs (λ v m. all v vs (Memᴰ.head refl) m))
        (tasks-AllListed ts (λ v us h m. all v us (Memᴰ.tail h) m))

pub roots-AllListed : (vm : Vm) → AllListed (IsRoot vm) (roots vm)
unfolding roots
roots-AllListed vm =
    append-AllListed (values vm.stack) (map-AllListed value vm.stack (λ v m. on_stack m)) (
      append-AllListed (frame_roots vm.frames)
        (frames-AllListed (IsRoot vm) vm.frames (λ f m. frame_closure m)
          (λ f a m e. frame_owner m e))
        (append-AllListed (map (λ g. value g.1) vm.globals)
          (map-AllListed (λ g. value g.1) vm.globals (λ g m. global {n = g.0} {b = g.2} m))
          (append-AllListed (map upvalue vm.open_upvalues)
            (map-AllListed upvalue vm.open_upvalues (λ a m. open_upvalue m))
            (append-AllListed (optional value vm.gen_yield)
              (optional-AllListed value vm.gen_yield (λ v e. yielded e))
              (append-AllListed (map (λ d. value d.0) vm.disposables)
                (map-AllListed (λ d. value d.0) vm.disposables (λ d m. disposable {b = d.1} m))
                (append-AllListed (map (λ e. value e.1) vm.exports)
                  (map-AllListed (λ e. value e.1) vm.exports (λ e m. exported {n = e.0} m))
                  (append-AllListed (module_roots vm.module_cache)
                    (modules-AllListed (IsRoot vm) vm.module_cache
                      (λ q n v es h m. module_export h m))
                    (append-AllListed (task_roots vm.microtasks)
                      (tasks-AllListed (IsRoot vm) vm.microtasks (λ v vs h m. microtask h m))
                      (tasks-AllListed (IsRoot vm) vm.macrotasks
                        (λ v vs h m. macrotask h m))))))))))

frame_listed :
    (fs : List CallFrame) (f : CallFrame)
    → Memᴰ f fs
    → Memᴰ (value (function f.closure)) (frame_roots fs)
frame_listed [] f h = absurd (Memᴰ.not-nil h)
frame_listed (g ∷ fs) f h = elim (Memᴰ.cases_cons h) [
  | inl e ↦ Memᴰ.head (ap (λ (x : CallFrame). value (function x.closure)) e)
  | inr m ↦
      Memᴰ.tail (Memᴰ.append_right (optional (λ a. value (class a)) g.owner) (frame_listed fs f m))
]

frame_owner_listed :
    (fs : List CallFrame) (f : CallFrame) (a : ℕ)
    → Memᴰ f fs
    → f.owner ≡ some a
    → Memᴰ (value (class a)) (frame_roots fs)
frame_owner_listed [] f a h e = absurd (Memᴰ.not-nil h)
frame_owner_listed (g ∷ fs) f a h e = elim (Memᴰ.cases_cons h) [
  | inl q ↦ Memᴰ.tail (
      Memᴰ.append_left (frame_roots fs)
        (mem-optional (λ a. value (class a)) (sym (ap (λ (x : CallFrame). x.owner) q) ∙ e)))
  | inr m ↦
      Memᴰ.tail (
        Memᴰ.append_right (optional (λ a. value (class a)) g.owner) (frame_owner_listed fs f a m e))
]

module_listed :
    (ms : List (String × List (String × Value))) (path n : String) (v : Value)
    (es : List (String × Value))
    → Memᴰ (path, es) ms
    → Memᴰ (n, v) es
    → Memᴰ (value v) (module_roots ms)
module_listed [] path n v es h m = absurd (Memᴰ.not-nil h)
module_listed ((q, fs) ∷ ms) path n v es h m = elim (Memᴰ.cases_cons h) [
  | inl e ↦
      Memᴰ.append_left (module_roots ms)
        (Memᴰ.map (λ (e : String × Value). value e.1) (subst (Memᴰ (n, v)) (ap (λ x. x.1) e) m))
  | inr rest ↦
      Memᴰ.append_right (map (λ (e : String × Value). value e.1) fs)
        (module_listed ms path n v es rest m)
]

task_listed :
    (ts : List (List Value)) (v : Value) (vs : List Value)
    → Memᴰ vs ts
    → Memᴰ v vs
    → Memᴰ (value v) (task_roots ts)
task_listed [] v vs h m = absurd (Memᴰ.not-nil h)
task_listed (us ∷ ts) v vs h m = elim (Memᴰ.cases_cons h) [
  | inl e ↦ Memᴰ.append_left (task_roots ts) (Memᴰ.map value (subst (Memᴰ v) e m))
  | inr rest ↦ Memᴰ.append_right (values us) (task_listed ts v vs rest m)
]

pub root_listed : (vm : Vm) (w : Work) → IsRoot vm w → Memᴰ w (roots vm)
unfolding roots
root_listed vm w (on_stack m) = Memᴰ.append_left _ (Memᴰ.map value m)
root_listed vm w (frame_closure {f = f} m) =
    Memᴰ.append_right (values vm.stack) (Memᴰ.append_left _ (frame_listed vm.frames f m))
root_listed vm w (frame_owner {f = f} {a = a} m e) =
    Memᴰ.append_right (values vm.stack) (Memᴰ.append_left _ (frame_owner_listed vm.frames f a m e))
root_listed vm w (global m) =
    Memᴰ.append_right (values vm.stack)
      (Memᴰ.append_right (frame_roots vm.frames) (Memᴰ.append_left _ (Memᴰ.map (λ g. value g.1) m)))
root_listed vm w (open_upvalue m) = Memᴰ.append_right (values vm.stack) (
    Memᴰ.append_right (frame_roots vm.frames) (
      Memᴰ.append_right (map (λ g. value g.1) vm.globals)
        (Memᴰ.append_left _ (Memᴰ.map upvalue m))))
root_listed vm w (yielded e) = Memᴰ.append_right (values vm.stack) (
    Memᴰ.append_right (frame_roots vm.frames) (
      Memᴰ.append_right (map (λ g. value g.1) vm.globals) (
        Memᴰ.append_right (map upvalue vm.open_upvalues)
          (Memᴰ.append_left _ (mem-optional value e)))))
root_listed vm w (disposable m) = Memᴰ.append_right (values vm.stack) (
    Memᴰ.append_right (frame_roots vm.frames) (
      Memᴰ.append_right (map (λ g. value g.1) vm.globals) (
        Memᴰ.append_right (map upvalue vm.open_upvalues) (
          Memᴰ.append_right (optional value vm.gen_yield)
            (Memᴰ.append_left _ (Memᴰ.map (λ d. value d.0) m))))))
root_listed vm w (exported m) = Memᴰ.append_right (values vm.stack) (
    Memᴰ.append_right (frame_roots vm.frames) (
      Memᴰ.append_right (map (λ g. value g.1) vm.globals) (
        Memᴰ.append_right (map upvalue vm.open_upvalues) (
          Memᴰ.append_right (optional value vm.gen_yield) (
            Memᴰ.append_right (map (λ d. value d.0) vm.disposables)
              (Memᴰ.append_left _ (Memᴰ.map (λ e. value e.1) m)))))))
root_listed vm w (module_export {path = q} {n = n} {v = v} {es = es} h m) =
    Memᴰ.append_right (values vm.stack) (
      Memᴰ.append_right (frame_roots vm.frames) (
        Memᴰ.append_right (map (λ g. value g.1) vm.globals) (
          Memᴰ.append_right (map upvalue vm.open_upvalues) (
            Memᴰ.append_right (optional value vm.gen_yield) (
              Memᴰ.append_right (map (λ d. value d.0) vm.disposables) (
                Memᴰ.append_right (map (λ e. value e.1) vm.exports)
                  (Memᴰ.append_left _ (module_listed vm.module_cache q n v es h m))))))))
root_listed vm w (microtask {v = v} {vs = vs} h m) = Memᴰ.append_right (values vm.stack) (
    Memᴰ.append_right (frame_roots vm.frames) (
      Memᴰ.append_right (map (λ g. value g.1) vm.globals) (
        Memᴰ.append_right (map upvalue vm.open_upvalues) (
          Memᴰ.append_right (optional value vm.gen_yield) (
            Memᴰ.append_right (map (λ d. value d.0) vm.disposables) (
              Memᴰ.append_right (map (λ e. value e.1) vm.exports) (
                Memᴰ.append_right (module_roots vm.module_cache)
                  (Memᴰ.append_left _ (task_listed vm.microtasks v vs h m)))))))))
root_listed vm w (macrotask {v = v} {vs = vs} h m) = Memᴰ.append_right (values vm.stack) (
    Memᴰ.append_right (frame_roots vm.frames) (
      Memᴰ.append_right (map (λ g. value g.1) vm.globals) (
        Memᴰ.append_right (map upvalue vm.open_upvalues) (
          Memᴰ.append_right (optional value vm.gen_yield) (
            Memᴰ.append_right (map (λ d. value d.0) vm.disposables) (
              Memᴰ.append_right (map (λ e. value e.1) vm.exports) (
                Memᴰ.append_right (module_roots vm.module_cache) (
                  Memᴰ.append_right (task_roots vm.microtasks)
                    (task_listed vm.macrotasks v vs h m)))))))))
