-- ===== src/Stm/Select/Longest.antt =====
-- `_shrink_prefix_to_cap` of src/memory_system/domain/services/compression_coordinator_service.py
-- keeps as much as the cap allows.
use mathlib.Core.List.{append-nil}
use memory_system.Shared.{
  ℕ, zero, suc, ◌≡◌, ◌≤◌, refl, sym, ◌∙◌, ap, Bool, true, false, List, [], ◌∷◌, ◌++◌, leb,
  if◌then◌else◌, arith, length, length-append,
}
use memory_system.Stm.Message.{WorkingMemoryMessage, total}
use memory_system.Stm.Select.{init, shrink_loop, shrink_prefix_to_cap}

init-append :
    (q : List WorkingMemoryMessage) (r : WorkingMemoryMessage) (rs : List WorkingMemoryMessage)
    → init (q ++ r ∷ rs) ≡ q ++ init (r ∷ rs)
unfolding init
init-append [] r rs = refl
init-append (x ∷ []) r rs = refl
init-append (x ∷ y ∷ q) r rs = ap (λ l. x ∷ l) (init-append (y ∷ q) r rs)

length-init :
    (m : WorkingMemoryMessage) (ms : List WorkingMemoryMessage) → length (init (m ∷ ms)) ≡ length ms
unfolding init
length-init m [] = refl
length-init m (n ∷ ms) = ap suc (length-init n ms)

either_length :
    (n : ℕ) (b : Bool) (x y : List WorkingMemoryMessage)
    → (b ≡ true → n ≤ length x)
    → (b ≡ false → n ≤ length y)
    → n ≤ length (if b then x else y)
either_length n true x y p q = p refl
either_length n false x y p q = q refl

shrink_loop-longest :
    (n : ℕ) (ms q rest : List WorkingMemoryMessage) (top : ℕ)
    → length ms ≤ n
    → q ++ rest ≡ ms
    → total q ≤ top
    → length q ≤ length (shrink_loop n ms top)
unfolding shrink_loop
shrink_loop-longest zero ms q rest top l e t = omega (arith, l, length-append q rest, ap length e)
shrink_loop-longest (suc n) [] q rest top l e t = omega (arith, length-append q rest, ap length e)
shrink_loop-longest (suc n) (m ∷ ms) q [] top l e t =
    either_length _ (leb (total (m ∷ ms)) top) _ _
      (λ b. omega (arith, length-append q [], ap length e))
      (λ b. absurd (ground (arith, b, t, ap total (sym (append-nil q) ∙ e))))
shrink_loop-longest (suc n) (m ∷ ms) q (r ∷ rs) top l e t =
    let rec =
      shrink_loop-longest n (init (m ∷ ms)) q (init (r ∷ rs)) top
        (omega (arith, l, length-init m ms)) (sym (init-append q r rs) ∙ ap init e) t in
    either_length _ (leb (total (m ∷ ms)) top) _ _
      (λ b. omega (arith, length-append q (r ∷ rs), ap length e)) (λ b. rec)

-- Every beginning of the messages that is within the cap is at most as long as the shrunk prefix.
pub shrink_prefix_to_cap-longest :
    (ms q rest : List WorkingMemoryMessage) (top : ℕ)
    → q ++ rest ≡ ms
    → total q ≤ top
    → length q ≤ length (shrink_prefix_to_cap ms top)
unfolding shrink_prefix_to_cap
shrink_prefix_to_cap-longest ms q rest top e t =
    shrink_loop-longest (length ms) ms q rest top (omega arith) e t
