-- ===== src/Executable/Slots.antt =====
-- executable.go: what the host writes to a slot and what it reads.
use tascript.Common.{
  nat_beq, nat_beq_iff, Bool-cases, inl, inr, ℕ, ◌<◌, false, some, List, ◌≡◌, ◌≢◌, refl, sym, ◌∙◌,
  ap, subst, arith, length, get_elem?, set, get_elem?-set_self, get_elem?-set_ne, ok, err, eq_refl,
  str_eq, if◌then◌else◌, if_true, if_false,
}
use tascript.Registry.Value.{TypeId, World, Value, type_id}
use tascript.Registry.Rule.{Registry}
use tascript.Resolved.{SlotDecl}
use tascript.Evaluator.Failure.{Failure, mid_activation}
use tascript.Evaluator.Machine.{Evaluator}
use tascript.Evaluator.Host.{coerced, update, no_value, read_cell, slot_get, slot_fill, slot_set}
use tascript.Executable.{
  Stage, stage_created, stage_initialized, stage_failed, Executable, Slot, Reply, reply, get_slot,
  set_slot, set_slot_at, with_eval,
}
use tascript.Executable.Invariant.{IsValid}
use tascript.Executable.Reach.{some→lt}

ne_of : {a b : ℕ} → nat_beq a b ≡ false → a ≢ b
ne_of h q = ground arith

module _ {w : World} where
  coerced-same :
      (r : Registry w) (want : TypeId) (mismatch : TypeId → Failure) (v : Value w)
      → type_id v ≡ some want
      → coerced r want mismatch v ≡ ok v
  unfolding coerced
  coerced-same r want mismatch v h = rw (h, coerced, eq_refl want)

  -- The evaluator with a value in a cell.
  abbrev filled_at : ℕ → Value w → Evaluator w → Evaluator w
  filled_at i v e = record e { slots = set e.slots i (some v) }

  slot_set-same :
      (i : ℕ) (v : Value w) (e : Evaluator w) (d : SlotDecl w)
      → e.in_tick ≡ false
      → get_elem? e.slot_decls i ≡ some d
      → type_id v ≡ some d.head.type
      → slot_set i v e ≡ (ok tt, filled_at i v e)
  unfolding slot_set slot_fill
  slot_set-same i v e d idle h k =
      if_false _ _ idle
      ∙ ap (λ o. slot_fill i v o e) h
      ∙ ap (λ c. update {B = Unit {0}} c no_value (λ v'. filled_at i v' e) e)
          (coerced-same e.registry d.head.type _ v k)

  slot_get-filled :
      (i : ℕ) (v : Value w) (e : Evaluator w)
      → e.in_tick ≡ false
      → i < length e.slots
      → slot_get i (filled_at i v e) ≡ ok v
  unfolding slot_get read_cell
  slot_get-filled i v e idle lt =
      if_false _ _ idle ∙ ap read_cell (get_elem?-set_self e.slots i (some v) lt)

  slot_get-other :
      (i j : ℕ) (v : Value w) (e : Evaluator w)
      → i ≢ j
      → slot_get j (filled_at i v e) ≡ slot_get j e
  unfolding slot_get
  slot_get-other i j v e ne =
      ap (λ c. if e.in_tick then err mid_activation else read_cell c)
        (get_elem?-set_ne e.slots i j (some v) ne)

  set_slot_at-open :
      (st : Stage) (s : Slot w) (v : Value w) (x : Executable w)
      → st ≢ stage_failed
      → set_slot_at st s v x ≡ with_eval x (slot_set s.idx v x.eval)
  unfolding set_slot_at
  set_slot_at-open stage_created s v x h = refl
  set_slot_at-open stage_initialized s v x h = refl
  set_slot_at-open stage_failed s v x h = absurd (h refl)

  get_slot-filled :
      (s t : Slot w) (v : Value w) (x : Executable w)
      → x.eval.in_tick ≡ false
      → s.idx < length x.eval.slots
      → get_slot t (record x { eval = filled_at s.idx v x.eval })
        ≡ (if nat_beq s.idx t.idx then ok v else get_slot t x)
  unfolding get_slot
  get_slot-filled s t v x idle lt = elim (Bool-cases (nat_beq s.idx t.idx)) [
    | inl e ↦
        ap (λ j. reply (λ u. u) (slot_get j (filled_at s.idx v x.eval)))
          (sym ((nat_beq_iff _ _).0 e))
        ∙ ap (reply (λ u. u)) (slot_get-filled s.idx v x.eval idle lt)
        ∙ sym (if_true _ _ e)
    | inr e ↦
        ap (reply (λ u. u)) (slot_get-other s.idx t.idx v x.eval (λ q. ne_of e q))
        ∙ sym (if_false _ _ e)
  ]

  -- While no activation runs, an executable that has not failed takes a value of the slot's declared
  -- type: the call succeeds, and then the slot reads as that value and every other slot as before.
  pub get_slot-set_slot :
      (ds : List (SlotDecl w)) (s t : Slot w) (v : Value w) (x : Executable w) (d : SlotDecl w)
      → IsValid ds x
      → x.stage ≢ stage_failed
      → get_elem? ds s.idx ≡ some d
      → type_id v ≡ some d.head.type
      → ((set_slot s v x).0 ≡ ok tt)
        × (get_slot t (set_slot s v x).1 ≡ (if nat_beq s.idx t.idx then ok v else get_slot t x))
  unfolding set_slot
  get_slot-set_slot ds s t v x d valid open_stage declared typed =
      let decl = ap (λ (l : List (SlotDecl w)). get_elem? l s.idx) valid.declared ∙ declared in
      let done =
        set_slot_at-open x.stage s v x open_stage
        ∙ ap (with_eval x) (slot_set-same s.idx v x.eval d valid.idle decl typed) in
      let lt = subst (λ n. s.idx < n) (sym valid.cells) (some→lt ds s.idx d declared) in
      (
        ap (λ (p : Reply (Unit {0}) × Executable w). p.0) done,
        ap (λ (p : Reply (Unit {0}) × Executable w). get_slot t p.1) done
            ∙ get_slot-filled s t v x valid.idle lt,
      )
