-- ===== src/Host/Memory.antt =====
-- The memory of the host, and the bytes that a copy moves.
use ftl_firmware.Common.{
  ℕ, zero, suc, ◌+◌, ◌<◌, ◌≡◌, refl, ap, ◌∙◌, List, [], ◌∷◌, length, update, update_self, update-ne,
  arith,
}

unfoldable pub store : (ℕ → ℕ) → ℕ → List ℕ → ℕ → ℕ
store mem a [] = mem
store mem a (b ∷ bs) = store (update mem a b) (a + 1) bs

unfoldable pub load : (ℕ → ℕ) → ℕ → ℕ → List ℕ
load mem a zero = []
load mem a (suc n) = mem a ∷ load mem (a + 1) n

-- A store changes nothing before it.
pub store-below : (mem : ℕ → ℕ) (a : ℕ) (bs : List ℕ) (j : ℕ) → j < a → store mem a bs j ≡ mem j
unfolding store
store-below mem a [] j lt = refl
store-below mem a (b ∷ bs) j lt =
    store-below (update mem a b) (a + 1) bs j (omega arith) ∙ update-ne mem a j b (omega arith)

-- What is stored is loaded.
pub load-store : (mem : ℕ → ℕ) (a : ℕ) (bs : List ℕ) → load (store mem a bs) a (length bs) ≡ bs
unfolding store load
load-store mem a [] = refl
load-store mem a (b ∷ bs) =
    ap (λ (x : ℕ). x ∷ load (store (update mem a b) (a + 1) bs) (a + 1) (length bs))
      (store-below (update mem a b) (a + 1) bs a (omega arith) ∙ update_self mem a b)
    ∙ ap (λ (l : List ℕ). b ∷ l) (load-store (update mem a b) (a + 1) bs)
