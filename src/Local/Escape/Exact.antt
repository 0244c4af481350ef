-- ===== src/Local/Escape/Exact.antt =====
-- isEscapingPtrToInt of lib/seadsa/DsaLocal.cc against a description of the users, one case for each.
use text.Mathlib.Text.{starts_with}
use text.Mathlib.Text
use sea_dsa.Common.{
  ℕ, ◌≡◌, refl, Bool, true, false, ==→≡, ==_refl, some, arith, inl, inr, ◌⊎◌, Bool-cases,
  Option-cases, member,
}
use sea_dsa.Local.{Value, Ir}
use sea_dsa.Local.Escape.{
  flow, is_ignored, is_sink, is_assumption, is_ptr_to_int, is_escaping_ptr_to_int,
}
use sea_dsa.Local.Escape.Paths.{FlowsTo, start, step}
use sea_dsa.Local.Escape.Correct.{is_escaping_ptr_to_int-Escapes}

module _ (ir : Ir) where
  -- A call of a function that only notes or assumes something.
  pub record OnlyAssumes (u : ℕ) : Type 0 where
    pub callee : ℕ
    pub is_callee : ir.direct_callee u ≡ some callee
    pub named :
        (starts_with (ir.name callee) "__sea_set_extptr_slot" ≡ true)
        ⊎ (Text.◌==◌ (ir.name callee) "verifier.assume" ≡ true)
        ⊎ (Text.◌==◌ (ir.name callee) "llvm.assume" ≡ true)

  -- The users of `v` that do not matter.
  pub data Ignores (v u : ℕ) : Type 0 where
    branch : ir.value u ≡ Value.branch → Ignores v u
    cmp : ir.value u ≡ Value.cmp → Ignores v u
    selects : (a b : ℕ) → ir.value u ≡ Value.select v a b → Ignores v u
    difference :
        (a b p q : ℕ)
        → ir.value u ≡ Value.sub a b
        → ir.value a ≡ Value.ptr_to_int p
        → ir.value b ≡ Value.ptr_to_int q
        → Ignores v u
    call : ir.value u ≡ Value.call → ir.is_invoke u ≡ false → OnlyAssumes u → Ignores v u
    mem_set : (d : ℕ) → ir.value u ≡ Value.mem_set d → OnlyAssumes u → Ignores v u
    mem_transfer :
        (d s len : ℕ) → ir.value u ≡ Value.mem_transfer d s len → OnlyAssumes u → Ignores v u

  -- The users that show an integer to memory.
  pub data Sinks (u : ℕ) : Type 0 where
    load : (p : ℕ) → ir.value u ≡ Value.load p → Sinks u
    store : (p x : ℕ) → ir.value u ≡ Value.store p x → Sinks u
    call : ir.value u ≡ Value.call → ir.is_invoke u ≡ false → Sinks u
    mem_set : (d : ℕ) → ir.value u ≡ Value.mem_set d → Sinks u
    mem_transfer : (d s len : ℕ) → ir.value u ≡ Value.mem_transfer d s len → Sinks u
    int_to_ptr : (x : ℕ) → ir.value u ≡ Value.int_to_ptr x → Sinks u

  Sinks-is_sink : (u : ℕ) → Sinks u → is_sink ir u ≡ true
  unfolding is_sink
  Sinks-is_sink u (load p e) = ground arith
  Sinks-is_sink u (store p x e) = ground arith
  Sinks-is_sink u (call e i) = ground arith
  Sinks-is_sink u (mem_set d e) = ground arith
  Sinks-is_sink u (mem_transfer d s len e) = ground arith
  Sinks-is_sink u (int_to_ptr x e) = ground arith

  value-Sinks : (u : ℕ) (x : Value) → ir.value u ≡ x → is_sink ir u ≡ true → Sinks u
  unfolding is_sink
  value-Sinks u (Value.load p) e h = load p e
  value-Sinks u (Value.store p x) e h = store p x e
  value-Sinks u Value.call e h = call e (ground arith)
  value-Sinks u (Value.mem_set d) e h = mem_set d e
  value-Sinks u (Value.mem_transfer d s len) e h = mem_transfer d s len e
  value-Sinks u (Value.int_to_ptr x) e h = int_to_ptr x e
  value-Sinks u _ e h = absurd (ground arith)

  is_sink-Sinks : (u : ℕ) → is_sink ir u ≡ true → Sinks u
  is_sink-Sinks u h = value-Sinks u (ir.value u) refl h

  OnlyAssumes-is_assumption : (u : ℕ) → OnlyAssumes u → is_assumption ir u ≡ true
  unfolding is_assumption
  OnlyAssumes-is_assumption u o =
      let e = o.is_callee in
      elim o.named [
        | inl x ↦ ground arith
        | inr (inl x) ↦ ground arith
        | inr (inr x) ↦ ground arith
      ]

  is_assumption-OnlyAssumes : (u : ℕ) → is_assumption ir u ≡ true → OnlyAssumes u
  unfolding is_assumption
  is_assumption-OnlyAssumes u h = elim (Option-cases (ir.direct_callee u)) [
    | inl e ↦ absurd (ground arith)
    | inr (f, e) ↦ record {
      callee = f;
      is_callee = e;
      named = elim (Bool-cases (starts_with (ir.name f) "__sea_set_extptr_slot")) [
        | inl x ↦ inl x
        | inr x ↦ elim (Bool-cases (Text.◌==◌ (ir.name f) "verifier.assume")) [
          | inl y ↦ inr (inl y)
          | inr y ↦ inr (inr (ground arith))
        ]
      ];
    }
  ]

  value-ptr_to_int :
      (a : ℕ) (x : Value)
      → ir.value a ≡ x
      → is_ptr_to_int ir a ≡ true
      → (p : ℕ) × (ir.value a ≡ Value.ptr_to_int p)
  unfolding is_ptr_to_int
  value-ptr_to_int a (Value.ptr_to_int p) e h = (p, e)
  value-ptr_to_int a _ e h = absurd (ground arith)

  Ignores-is_ignored : (v u : ℕ) → Ignores v u → is_ignored ir v u ≡ true
  unfolding is_ignored is_ptr_to_int
  Ignores-is_ignored v u (branch e) = ground arith
  Ignores-is_ignored v u (cmp e) = ground arith
  Ignores-is_ignored v u (selects a b e) = ground (arith, ==_refl v)
  Ignores-is_ignored v u (difference a b p q e f g) = ground arith
  Ignores-is_ignored v u (call e i o) = ground (arith, OnlyAssumes-is_assumption u o)
  Ignores-is_ignored v u (mem_set d e o) = ground (arith, OnlyAssumes-is_assumption u o)
  Ignores-is_ignored v u (mem_transfer d s len e o) = ground (arith, OnlyAssumes-is_assumption u o)

  value-Ignores : (v u : ℕ) (x : Value) → ir.value u ≡ x → is_ignored ir v u ≡ true → Ignores v u
  unfolding is_ignored
  value-Ignores v u Value.branch e h = branch e
  value-Ignores v u Value.cmp e h = cmp e
  value-Ignores v u (Value.select c a b) e h =
      let same : c ≡ v = ==→≡ c v (ground arith) in selects a b (cc (e, same))
  value-Ignores v u (Value.sub a b) e h =
      let (p, f) = value-ptr_to_int a (ir.value a) refl (ground arith) in
      let (q, g) = value-ptr_to_int b (ir.value b) refl (ground arith) in difference a b p q e f g
  value-Ignores v u Value.call e h =
      call e (ground arith) (is_assumption-OnlyAssumes u (ground arith))
  value-Ignores v u (Value.mem_set d) e h = mem_set d e (is_assumption-OnlyAssumes u (ground arith))
  value-Ignores v u (Value.mem_transfer d s len) e h =
      mem_transfer d s len e (is_assumption-OnlyAssumes u (ground arith))
  value-Ignores v u _ e h = absurd (ground arith)

  -- The values that the value `v` flows into, through users that matter and are no sinks.
  pub data Reaches (v : ℕ) : ℕ → Type 0 where
    itself : Reaches v v
    onward :
        {u w : ℕ}
        → Reaches v u
        → member w (ir.users u) ≡ true
        → (Ignores u w → ⊥)
        → (Sinks w → ⊥)
        → Reaches v w

  -- One of them has a user that matters and is a sink.
  abbrev pub IsEscaping : ℕ → Type 0
  IsEscaping v =
      (u : ℕ) × (w : ℕ) × Reaches v u × (member w (ir.users u) ≡ true) × (Ignores u w → ⊥) × Sinks w

  not_ignored : (u w : ℕ) → (Ignores u w → ⊥) → is_ignored ir u w ≡ false
  not_ignored u w n = elim (Bool-cases (is_ignored ir u w)) [
    | inl h ↦ absurd (n (value-Ignores u w (ir.value w) refl h))
    | inr h ↦ h
  ]

  not_sink : (w : ℕ) → (Sinks w → ⊥) → is_sink ir w ≡ false
  not_sink w n = elim (Bool-cases (is_sink ir w)) [
    | inl h ↦ absurd (n (is_sink-Sinks w h))
    | inr h ↦ h
  ]

  FlowsTo-Reaches : {v u : ℕ} → FlowsTo ir v u → Reaches v u
  unfolding flow
  FlowsTo-Reaches start = itself
  FlowsTo-Reaches (step {u = u} {w = w} p m f) =
      onward (FlowsTo-Reaches p) m (λ i. let x = Ignores-is_ignored u w i in absurd (ground arith))
        (λ s.
          let x = Sinks-is_sink w s in
          elim (Bool-cases (is_ignored ir u w)) [
            | inl y ↦ absurd (ground arith)
            | inr y ↦ absurd (ground arith)
          ])

  Reaches-FlowsTo : {v u : ℕ} → Reaches v u → FlowsTo ir v u
  unfolding flow
  Reaches-FlowsTo itself = start
  Reaches-FlowsTo (onward {u = u} {w = w} p m i s) =
      let x = not_ignored u w i in let y = not_sink w s in step (Reaches-FlowsTo p) m (ground arith)

  -- isEscapingPtrToInt of a ptrtoint instruction, where it ends, answers whether the integer flows,
  -- through users that are neither ignored nor sinks, to a value with a user that is a sink and not
  -- ignored. A sink is a load, a store, a call that is no invoke, or an inttoptr.
  pub is_escaping_ptr_to_int-IsEscaping :
      (k v operand : ℕ) (b : Bool)
      → ir.value v ≡ Value.ptr_to_int operand
      → is_escaping_ptr_to_int ir k v ≡ some b
      → (b ≡ true → IsEscaping v) × (IsEscaping v → b ≡ true)
  unfolding flow
  is_escaping_ptr_to_int-IsEscaping k v operand b is h =
      let (there, back) = is_escaping_ptr_to_int-Escapes ir k v operand b is h in
      (
        (λ e.
            let (u, w, p, m, f) = there e in
            elim (Bool-cases (is_ignored ir u w)) [
              | inl i ↦ absurd (ground arith)
              | inr i ↦ (
                u,
                w,
                FlowsTo-Reaches p,
                m,
                (λ x. let y = Ignores-is_ignored u w x in absurd (ground arith)),
                is_sink-Sinks w (elim (Bool-cases (is_sink ir w)) [
                  | inl s ↦ s
                  | inr s ↦ absurd (ground arith)
                ]),
              )
            ]),
        λ (u, w, p, m, i, s).
            let x = not_ignored u w i in
            let y = Sinks-is_sink w s in back (u, w, Reaches-FlowsTo p, m, ground arith),
      )
