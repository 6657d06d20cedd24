-- ===== src/Ioapic/Start.antt =====
-- What `init` (src/ioapic.cpp) leaves in the redirection entries of a controller.
use mathlib.Core.Path.{subst}
use synx.Prelude.{
  ℕ, zero, suc, ◌+◌, ◌*◌, ◌/◌, ◌%◌, ◌^◌, ◌≤◌, ◌<◌, ◌≡◌, refl, arith, ap, ◌∙◌, List, [], ◌∷◌, ◌++◌,
  some, leb, length, get_elem?, length-append, get_elem?-append_left, get_elem?-append_end,
  get_elem?-lt, guard_passed, word32,
}
use mathlib.Core.Option.{some-injective}
use synx.Ioapic.{
  IoApicInstance, Write, Ioapics, max_instances, rdt_low_base, mask_bit, ioapic_virt_base,
  write_reg, mask_all, read_reg, init,
}

abbrev mask_write : (virt_base i : ℕ) → Write
mask_write virt_base i = record {
  virt_base = virt_base;
  reg = (rdt_low_base + 2 * i) % 256;
  value = mask_bit;
}

-- The log keeps what it had, and the entries from `i` on, `left` of them, are masked in it.
record Masked (virt_base left i : ℕ) (s t : Ioapics) : Type 0 where
  instances : t.instances ≡ s.instances
  kept : (j : ℕ) (w : Write) → get_elem? s.log j ≡ some w → get_elem? t.log j ≡ some w
  masked :
      (j : ℕ)
      → j < left
      → get_elem? t.log (length s.log + 2 * j) ≡ some (mask_write virt_base (i + j))

-- Two more writes at the end of a log.
abbrev two_more : List Write → Write → Write → List Write
two_more log a b = (log ++ (a ∷ [])) ++ (b ∷ [])

two_more-kept :
    (log : List Write) (a b : Write) (j : ℕ) (w : Write)
    → get_elem? log j ≡ some w
    → get_elem? (two_more log a b) j ≡ some w
two_more-kept log a b j w at =
    let one = get_elem?-append_left log (a ∷ []) j (get_elem?-lt log j at) ∙ at in
    get_elem?-append_left (log ++ (a ∷ [])) (b ∷ []) j (get_elem?-lt (log ++ (a ∷ [])) j one) ∙ one

two_more-first :
    (log : List Write) (a b : Write) → get_elem? (two_more log a b) (length log) ≡ some a
two_more-first log a b =
    let one = get_elem?-append_end log a in
    get_elem?-append_left (log ++ (a ∷ [])) (b ∷ []) (length log)
      (get_elem?-lt (log ++ (a ∷ [])) (length log) one)
    ∙ one

length-two_more : (log : List Write) (a b : Write) → length (two_more log a b) ≡ length log + 2
length-two_more log a b =
    let outer = length-append (log ++ (a ∷ [])) (b ∷ []) in
    let inner = length-append log (a ∷ []) in omega arith

-- The later rounds, and the writes of this one before them.
Masked-step :
    (virt_base left i : ℕ) (a b : Write) (s two t : Ioapics)
    → a ≡ mask_write virt_base i
    → two.log ≡ two_more s.log a b
    → two.instances ≡ s.instances
    → Masked virt_base left (i + 1) two t
    → Masked virt_base (suc left) i s t
Masked-step virt_base left i a b s two t ea elog einst later = record {
  instances = later.instances ∙ einst;
  kept = λ j w at. later.kept j w (ap (λ l. get_elem? l j) elog ∙ two_more-kept s.log a b j w at);
  masked = here_or_later;
}
  where
    place : (k : ℕ) → length s.log + 2 * suc k ≡ length two.log + 2 * k
    place k = let e = ap length elog ∙ length-two_more s.log a b in omega arith

    here_or_later :
        (j : ℕ)
        → j < suc left
        → get_elem? t.log (length s.log + 2 * j) ≡ some (mask_write virt_base (i + j))
    here_or_later zero below =
        ap (get_elem? t.log) (omega arith)
        ∙ later.kept (length s.log) a
            (ap (λ l. get_elem? l (length s.log)) elog ∙ two_more-first s.log a b)
        ∙ ap some ea
        ∙ ap (λ n. some (mask_write virt_base n)) (omega arith)
    here_or_later (suc k) below =
        ap (get_elem? t.log) (place k)
        ∙ later.masked k (omega arith)
        ∙ ap (λ n. some (mask_write virt_base n)) (omega arith)

mask_all-Masked :
    (virt_base left i : ℕ) (s : Ioapics) → Masked virt_base left i s (mask_all virt_base left i s)
unfolding mask_all write_reg
mask_all-Masked virt_base zero i s = record {
  instances = refl;
  kept = λ j w at. at;
  masked = λ j below. absurd (omega arith);
}
mask_all-Masked virt_base (suc left) i s = Masked-step virt_base left i _ _ s _ _ refl refl refl (
    mask_all-Masked virt_base left (i + 1) (
      write_reg virt_base (rdt_low_base + 2 * i + 1) 0
        (write_reg virt_base (rdt_low_base + 2 * i) mask_bit s)))

-- What `init` adds.
pub record Started (phys_base gsi_base : ℕ) (s t : Ioapics) : Type 0 where
  pub room : length s.instances < max_instances
  pub added : IoApicInstance
  pub counted : (1 ≤ added.max_rte) × (added.max_rte ≤ 256)
  pub ranged : added.gsi_base ≡ gsi_base
  pub instances : t.instances ≡ s.instances ++ (added ∷ [])
  pub all_masked :
      (j : ℕ)
      → j < added.max_rte
      → get_elem? t.log (length s.log + 2 * j) ≡ some (mask_write added.virt_base j)

-- Where `init` does not panic there was room for a controller. It adds one at the end, with 1 to 256
-- entries and the given first interrupt, and for each of its entries it writes the mask bit to the
-- register of the entry's lower half, whose number is cut to a byte.
pub init-Started :
    (device : List Write → (virt_base reg : ℕ) → ℕ) (phys_base gsi_base : ℕ) (s t : Ioapics)
    → init device phys_base gsi_base s ≡ some t
    → Started phys_base gsi_base s t
unfolding init
init-Started device phys_base gsi_base s t h =
    let virt = ioapic_virt_base + length s.instances * 0x1000 in
    let count = (read_reg device virt 1 s / 2 ^ 16) % 256 + 1 in
    let new : IoApicInstance = record {
      virt_base = virt;
      phys_base = phys_base % word32;
      gsi_base = gsi_base;
      max_rte = count;
    } in
    let masked = mask_all-Masked virt count 0 s in
    let (room, made) = guard_passed (leb max_instances (length s.instances)) _ t h in
    subst (Started phys_base gsi_base s) (some-injective _ _ made) (record {
      room = ground arith;
      added = new;
      counted = (omega arith, omega arith);
      ranged = refl;
      instances = ap (λ l. l ++ (new ∷ [])) masked.instances;
      all_masked =
          λ j below. masked.masked j below ∙ ap (λ n. some (mask_write virt n)) (omega arith);
    })
