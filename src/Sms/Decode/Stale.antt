-- ===== src/Sms/Decode/Stale.antt =====
-- The slots of the decoder's array of septets that no octet fills.
use openwrt_fm.Base.{
  ℕ, zero, suc, ◌+◌, ◌*◌, ◌/◌, ◌≤◌, true, false, ◌≡◌, refl, ap, List, [], ◌∷◌, arith, leb, length,
  Bytes,
}
use openwrt_fm.Sms.Decode.UserData.{unpack}

-- What the array held from slot `k` on.
abbrev pub held : (ℕ → ℕ) → ℕ → ℕ → List ℕ
held stale zero k = []
held stale (suc left) k = stale k ∷ held stale left (k + 1)

unpack-stopped :
    (left k : ℕ) (ud : Bytes) (start : ℕ) (stale : ℕ → ℕ)
    → unpack left k ud start stale true ≡ held stale left k
unfolding unpack
unpack-stopped zero k ud start stale = refl
unpack-stopped (suc left) k ud start stale =
    ap (λ (ss : List ℕ). stale k ∷ ss) (unpack-stopped left (k + 1) ud start stale)

-- Behind the last octet the septets are what the array held before; where every septet has an
-- octet, what the array held is not read.
pub unpack-stale :
    (left k : ℕ) (ud : Bytes) (start : ℕ) (stale stale' : ℕ → ℕ)
    → (length ud ≤ (k * 7 + start) / 8 → unpack left k ud start stale false ≡ held stale left k)
      × (k * 7 + left * 7 + start ≤ 8 * length ud
          → unpack left k ud start stale false ≡ unpack left k ud start stale' false)
unfolding unpack
unpack-stale zero k ud start stale stale' = (λ _. refl, λ _. refl)
unpack-stale (suc left) k ud start stale stale' = (
  λ out.
      let over : leb (length ud) ((k * 7 + start) / 8) ≡ true = ground arith in
      rw over (ap (λ (ss : List ℕ). stale k ∷ ss) (unpack-stopped left (k + 1) ud start stale)),
  λ here.
      let inside : leb (length ud) ((k * 7 + start) / 8) ≡ false = ground arith in
      let others = (unpack-stale left (k + 1) ud start stale stale').1 (omega arith) in
      rw inside (rw others refl),
)
