-- ===== src/Paging/Range.antt =====
-- What a loop over the pages of a range does to translation, put together from what its rounds do.
use aidos.Common.{
  ℕ, suc, ◌+◌, ◌*◌, ◌/◌, ◌%◌, ◌^◌, ◌≤◌, ◌<◌, ◌≡◌, ◌≢◌, refl, arith, true, false, Option, ◌∙◌, sym,
  ap, Bool-cases, inl, inr, ◌==◌, ==_iff, if◌then◌else◌,
}
use aidos.Paging.{Kernel, page_address}
use aidos.Paging.Entry.{page_bits}
use aidos.Paging.Mmu.{translate}
use aidos.Paging.Way.{page}

pub page_address-page : (base i : ℕ) → page (page_address base i) ≡ (base / 4096 + i) % 2 ^ 36
page_address-page base i = rw page_bits (omega arith)

pub page_address_lem :
    (base i : ℕ) → base + i * 4096 < 2 ^ 64 → page_address base i ≡ (base / 4096 + i) * 4096
page_address_lem base i h = rw page_bits (omega arith)

-- From `s` to `s'` the page of `va` is sent to `target`, and every other address stays.
abbrev pub Sends : (va : ℕ) (target : ℕ → Option ℕ) (s s' : Kernel) → Type 0
Sends va target s s' =
    (va' : ℕ) → translate s' va' ≡ (if page va == page va' then target va' else translate s va')

pub Sends-ext :
    (va : ℕ) (f g : ℕ → Option ℕ) (s s' : Kernel)
    → ((va' : ℕ) → f va' ≡ g va')
    → Sends va f s s'
    → Sends va g s s'
Sends-ext va f g s s' e sends va' =
    sends va' ∙ ap (λ (t : Option ℕ). if page va == page va' then t else translate s va') (e va')

-- From `s` to `s'` each of the `left` pages from page `i` of the range on is sent to its target, and
-- every address outside of them stays.
pub record IsRange (virt : ℕ) (target : ℕ → ℕ → Option ℕ) (left i : ℕ) (s s' : Kernel)
    : Type 0 where
  pub inside :
      (j va : ℕ)
      → i ≤ j
      → j < i + left
      → page va ≡ (virt / 4096 + j) % 2 ^ 36
      → translate s' va ≡ target j va
  pub outside :
      (va : ℕ)
      → ((j : ℕ) → i ≤ j → j < i + left → page va ≢ (virt / 4096 + j) % 2 ^ 36)
      → translate s' va ≡ translate s va

pub IsRange-zero :
    (virt : ℕ) (target : ℕ → ℕ → Option ℕ) (i : ℕ) (s : Kernel) → IsRange virt target 0 i s s
IsRange-zero virt target i s = record {
  inside = λ j va p q. absurd (omega arith);
  outside = λ va h. refl;
}

module _ (virt : ℕ) (target : ℕ → ℕ → Option ℕ) (left i : ℕ) (s s1 s' : Kernel)
    (once : suc left ≤ 2 ^ 36) (first : Sends (page_address virt i) (target i) s s1)
    (rest : IsRange virt target left (i + 1) s1 s') where
  first-here : (va : ℕ) → page va ≡ (virt / 4096 + i) % 2 ^ 36 → translate s1 va ≡ target i va
  first-here va e =
      let hit : (page (page_address virt i) == page va) ≡ true =
        ground (arith, page_address-page virt i) in
      first va ∙ rw hit refl

  first-elsewhere :
      (va : ℕ) → page va ≢ (virt / 4096 + i) % 2 ^ 36 → translate s1 va ≡ translate s va
  first-elsewhere va ne =
      let miss : (page (page_address virt i) == page va) ≡ false =
        ground (arith, page_address-page virt i) in
      first va ∙ rw miss refl

  apart :
      (j : ℕ) → i < j → j < i + suc left → (virt / 4096 + i) % 2 ^ 36 ≢ (virt / 4096 + j) % 2 ^ 36
  apart j p q e = omega arith

  pub IsRange-suc : IsRange virt target (suc left) i s s'
  IsRange-suc = record {
    inside = λ j va p q e. elim (Bool-cases (i == j)) [
      | inl same ↦
          let e' : i ≡ j = (==_iff i j).0 same in
          let here : page va ≡ (virt / 4096 + i) % 2 ^ 36 = rw e' e in
          rest.outside va (λ k p' q' hit. apart k (omega arith) (omega arith) (sym here ∙ hit))
          ∙ rw (← e') (first-here va here)
      | inr later ↦ rest.inside j va (ground arith) (omega arith) e
    ];
    outside = λ va h.
        rest.outside va (λ k p' q'. h k (omega arith) (omega arith))
        ∙ first-elsewhere va (h i (omega arith) (omega arith));
  }
