-- ===== src/Memory/Blocks.antt =====
-- The blocks of the allocator that are given out.
use veil_os.Base.{
  ℕ, ◌+◌, ◌*◌, ◌≤◌, ◌<◌, ◌≡◌, ◌≢◌, ◌⊎◌, inl, inr, sym, ap, ◌∙◌, length, ltb, ◌==◌, arith,
  Bool-cases, ==→eq, ==→ne, ltb→lt, ltb→le,
}
use veil_os.Memory.Pages.{page_free, page_occupied, page_header, page_size, high_va}
use veil_os.Memory.Alloc.{MHeader, Memory, flag_at}

-- A block: its first page, the number of its pages in front of the header, and the size asked for.
pub record Block : Type 0 where
  pub first : ℕ
  pub count : ℕ
  pub asked : ℕ

abbrev pub address_of : ℕ → ℕ
address_of i = high_va + i * page_size

abbrev pub header_of : Block → MHeader
header_of b = record {
  size = b.count * page_size;
  start = address_of b.first;
  initial_size = b.asked;
}

module _ {T : Type 0} where
  -- The block is given out: its pages are occupied, and its header stands in the page behind them.
  pub record IsBlock (mem : Memory T) (b : Block) : Type 0 where
    pub within : b.first + b.count < length mem.pages
    pub occupied :
        (m : ℕ) → b.first ≤ m → m < b.first + b.count → flag_at mem.pages m ≡ page_occupied
    pub ended : flag_at mem.pages (b.first + b.count) ≡ page_header
    pub headed : mem.headers (address_of (b.first + b.count)) ≡ header_of b

  -- A header in front of a block's end stands in front of the block.
  end_outside :
      (mem : Memory T) (b : Block) (m : ℕ)
      → IsBlock mem b
      → m < b.first + b.count
      → flag_at mem.pages m ≡ page_header
      → m < b.first
  end_outside mem b m h lt e = elim (Bool-cases (ltb m b.first)) [
    | inl below ↦ ltb→lt m b.first below
    | inr above ↦
        let both = sym (h.occupied m (ltb→le m b.first above) lt) ∙ e in
        absurd (omega (arith, both))
  ]

  -- Two blocks that are given out and start at different pages have no page in common.
  pub blocks_apart :
      (mem : Memory T) (b c : Block)
      → IsBlock mem b
      → IsBlock mem c
      → b.first ≢ c.first
      → (b.first + b.count < c.first) ⊎ (c.first + c.count < b.first)
  blocks_apart mem b c hb hc ne = elim (Bool-cases (b_end == c_end)) [
    | inl same ↦
        let e = ==→eq b_end c_end same in
        let headers = sym hb.headed ∙ ap (λ i. mem.headers (address_of i)) e ∙ hc.headed in
        let starts = ap (λ h. h.start) headers in absurd (ne (omega (arith, starts)))
    | inr differ ↦ elim (Bool-cases (ltb b_end c_end)) [
      | inl lt ↦ inl (end_outside mem c b_end hc (ltb→lt b_end c_end lt) hb.ended)
      | inr le ↦ inr (
          end_outside mem b c_end hb
            (omega (arith, ==→ne b_end c_end differ, ltb→le b_end c_end le)) hc.ended)
    ]
  ]
    where
      b_end : ℕ
      b_end = b.first + b.count

      c_end : ℕ
      c_end = c.first + c.count

  -- The first page of a block is not free.
  pub first_used :
      (mem : Memory T) (b : Block) → IsBlock mem b → flag_at mem.pages b.first ≢ page_free
  first_used mem b h = elim (Bool-cases (b.count == 0)) [
    | inl none_left ↦
        let e : b.first ≡ b.first + b.count = omega (arith, ==→eq b.count 0 none_left) in
        λ z. absurd (omega (arith, sym (ap (flag_at mem.pages) e ∙ h.ended) ∙ z))
    | inr some_left ↦
        let at = h.occupied b.first (omega arith) (omega (arith, ==→ne b.count 0 some_left)) in
        λ z. absurd (omega (arith, sym at ∙ z))
  ]
