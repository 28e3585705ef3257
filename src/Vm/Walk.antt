-- ===== src/Vm/Walk.antt =====
-- walkpgdir finds or makes the table for an address and leaves what is mapped as it is.
use os_lab.Base.{
  ℕ, ◌+◌, ◌*◌, ◌<◌, ◌≡◌, refl, sym, ap, ◌∙◌, subst, ◌≢◌, inl, inr, true, false, List, [], ◌∷◌,
  arith, ℕ_discrete, ◌==◌, if◌then◌else◌, eq→==, ne→==, Bool-cases, All, update_self, update_ne,
}
use os_lab.KString.{store_word}
use os_lab.Syscall.{word}
use os_lab.Kalloc.{v2p}
use os_lab.Kalloc.Pages.{Chain}
use os_lab.Vm.{Vm, pdx, ptx, is_present, page_of, entry, set_entry, zero_page}
use os_lab.Vm.Tree.{
  pte-missing, pte-there, NotIn, first, table, Tree, pte, page_of-v2p, Chain-next, entry-set_entry,
}

pub agree :
    (s new : Vm) (p d : ℕ)
    → ((q : ℕ) → p ≢ q → d ≢ q → new.pages q ≡ s.pages q)
    → (fl : List ℕ) → NotIn p fl
    → NotIn d fl
    → All (λ q. first new q ≡ first s q) fl
agree s new p d same [] a b = tt
agree s new p d same (q ∷ fl) (n, a) (m, b) =
    (ap (λ m. word m 0) (same q (λ e. n (sym e)) (λ e. m (sym e))), agree s new p d same fl a b)

module _ (kernel_end : ℕ) (s : Vm) (d p : ℕ) (rest : List ℕ) (t : Tree kernel_end s d (p ∷ rest))
    (apart_rest : NotIn p rest) (chained : Chain (first s) (first s p) rest) (i : ℕ) (h : i < 1024)
    (missing : is_present (entry s d i) ≡ false) where
  -- A free page becomes the table of the entry `i`.
  abbrev pub with_table : Vm
  with_table = set_entry (zero_page (record s { freelist = first s p }) p) d i (v2p p + 7)

  pub with_table-pages : (q : ℕ) → p ≢ q → d ≢ q → with_table.pages q ≡ s.pages q
  unfolding set_entry
  with_table-pages q a b =
      update_ne (zero_page s p).pages d (store_word (4 * i) (v2p p + 7) ((zero_page s p).pages d)) q
        b
      ∙ update_ne s.pages p (λ _. 0) q a

  entry_at : (j : ℕ) → entry with_table d j ≡ (if i == j then v2p p + 7 else entry s d j)
  entry_at j =
      entry-set_entry (zero_page (record s { freelist = first s p }) p) d i (v2p p + 7) d j
        (let (a, b, c, e) = t.good.0 in omega arith)
      ∙ rw (eq→== d d refl, update_ne s.pages p (λ _. 0) d t.dir.0) refl

  entry_new : entry with_table d i ≡ v2p p + 7
  entry_new = entry_at i ∙ rw (eq→== i i refl) refl

  entry_old : (j : ℕ) → i ≢ j → entry with_table d j ≡ entry s d j
  entry_old j n = entry_at j ∙ rw (ne→== i j n) refl

  pub table_new : table with_table d i ≡ p
  table_new = ap page_of entry_new ∙ page_of-v2p kernel_end p 7 t.good.0 (omega arith)

  pub present_new : is_present (entry with_table d i) ≡ true
  present_new = ap is_present entry_new ∙ (let (a, b, c, e) = t.good.0 in ground arith)

  pub table_old : (j : ℕ) → i ≢ j → table with_table d j ≡ table s d j
  table_old j n = ap page_of (entry_old j n)

  pub present_old :
      (j : ℕ) → i ≢ j → is_present (entry with_table d j) ≡ true → is_present (entry s d j) ≡ true
  present_old j n y = sym (ap is_present (entry_old j n)) ∙ y

  pub with_table-Tree : Tree kernel_end with_table d rest
  unfolding set_entry
  with_table-Tree = record {
    linked =
        Chain-next (first s) (first with_table) (first s p) rest
          (agree s with_table p d with_table-pages rest apart_rest t.dir.1) chained;
    good = t.good.1;
    dir = t.dir.1;
    away = λ j l y. elim (ℕ_discrete i j) [
      | yes e ↦
          subst (λ q. NotIn q rest × (q ≢ d)) (sym (ap (table with_table d) (sym e) ∙ table_new))
            (apart_rest, t.dir.0)
      | no e ↦
          let (a, b) = t.away j l (present_old j e y) in
          subst (λ q. NotIn q rest × (q ≢ d)) (sym (table_old j e)) (a.1, b)
    ];
    apart = λ j k l m y z e. elim (ℕ_discrete i j) [
      | yes a ↦ elim (ℕ_discrete i k) [
        | yes b ↦ sym a ∙ b
        | no b ↦ absurd (
            (t.away k m (present_old k b z)).0.0
              (sym (ap (table with_table d) (sym a) ∙ table_new) ∙ e ∙ table_old k b))
      ]
      | no a ↦ elim (ℕ_discrete i k) [
        | yes b ↦ absurd (
            (t.away j l (present_old j a y)).0.0
              (sym (ap (table with_table d) (sym b) ∙ table_new) ∙ sym e ∙ table_old j a))
        | no b ↦
            t.apart j k l m (present_old j a y) (present_old k b z)
              (sym (table_old j a) ∙ e ∙ table_old k b)
      ]
    ];
  }

  with_table-zero : (k : ℕ) → entry with_table p k ≡ 0
  unfolding set_entry
  with_table-zero k =
      ap (λ m. word m (4 * k))
        (update_ne (zero_page s p).pages d
            (store_word (4 * i) (v2p p + 7) ((zero_page s p).pages d)) p (λ e. t.dir.0 (sym e))
          ∙ update_self s.pages p (λ _. 0))

  pub with_table-pte : (va : ℕ) → pte with_table d va ≡ pte s d va
  with_table-pte va = elim (ℕ_discrete i (pdx va)) [
    | yes e ↦
        pte-there with_table d va
          (ap (λ k. is_present (entry with_table d k)) (sym e) ∙ present_new)
        ∙ ap (λ q. entry with_table q (ptx va)) (ap (table with_table d) (sym e) ∙ table_new)
        ∙ with_table-zero (ptx va)
        ∙ sym (pte-missing s d va (ap (λ k. is_present (entry s d k)) (sym e) ∙ missing))
    | no e ↦ elim (Bool-cases (is_present (entry s d (pdx va)))) [
      | inl y ↦
          let (a, b) = t.away (pdx va) (omega arith) y in
          pte-there with_table d va (ap is_present (entry_old (pdx va) e) ∙ y)
          ∙ ap (λ q. entry with_table q (ptx va)) (table_old (pdx va) e)
          ∙ ap (λ m. word m (4 * ptx va))
              (with_table-pages (table s d (pdx va)) a.0 (λ q. b (sym q)))
          ∙ sym (pte-there s d va y)
      | inr n ↦
          pte-missing with_table d va (ap is_present (entry_old (pdx va) e) ∙ n)
          ∙ sym (pte-missing s d va n)
    ]
  ]
