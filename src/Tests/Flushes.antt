-- ===== src/Tests/Flushes.antt =====
-- The TLB at concrete inputs.
use fist_ame.Base.{◌≡◌, refl, inl, inr, false, true, arith}
use fist_ame.Tlb.{tlb_flush, tlb_flush_page, tlb_add_large_page}
use fist_ame.Tlb.Flush.{hit, hit-tlb_flush, hit-tlb_flush_page, IsOnePage, table-tlb_flush_page}
use fist_ame.Tlb.Large.{
  Region, IsLarge, tlb_add_large_page-IsLarge, tlb_flush_page-tlb_add_large_page,
}
use fist_ame.Tests.Cases.{page_5, small_tlb, large_tlb}

hit-small_tlb : hit small_tlb 0 0x5123 ≡ true
hit-small_tlb = refl

page_5-IsOnePage : IsOnePage page_5 0x5000
page_5-IsOnePage = record {
  read = inr refl;
  write = inl refl;
  code = inl refl;
  read_lt = omega arith;
  write_lt = omega arith;
  code_lt = omega arith;
}

large_tlb-Region : Region large_tlb 21
large_tlb-Region = record {
  bits = omega arith;
  mask = refl;
  small = omega arith;
  aligned = refl;
  set = λ e. absurd (ground (arith, e));
}

large_tlb-IsLarge : IsLarge large_tlb
large_tlb-IsLarge = inr (21, large_tlb-Region)

hit-tlb_flush_example : hit (tlb_flush small_tlb) 1 0x5123 ≡ false
hit-tlb_flush_example = hit-tlb_flush small_tlb 1 0x5123 (omega arith) (omega arith)

hit-tlb_flush_page_example : hit (tlb_flush_page small_tlb 0x5123) 1 0x5123 ≡ false
hit-tlb_flush_page_example = hit-tlb_flush_page small_tlb 1 0x5123 (omega arith) (omega arith)

table-tlb_flush_page_example : (tlb_flush_page small_tlb 0x10_5000).tlb_table 1 5 ≡ page_5
table-tlb_flush_page_example =
    table-tlb_flush_page small_tlb 1 5 0x10_5000 0x5000 (omega arith)
      (λ e. absurd (ground (arith, e))) page_5-IsOnePage (λ e. absurd (ground (arith, e)))

tlb_add_large_page-IsLarge_example : IsLarge (tlb_add_large_page large_tlb 0x80_0000 0x20_0000)
tlb_add_large_page-IsLarge_example =
    tlb_add_large_page-IsLarge large_tlb 0x80_0000 21 large_tlb-IsLarge (omega arith) (omega arith)
      (omega arith)

tlb_flush_page-tlb_add_large_page_example :
    let u = tlb_add_large_page large_tlb 0x80_0000 0x20_0000 in
    tlb_flush_page u 0x8f_ffff ≡ tlb_flush u
tlb_flush_page-tlb_add_large_page_example =
    tlb_flush_page-tlb_add_large_page large_tlb 0x80_0000 21 0x8f_ffff large_tlb-IsLarge
      (omega arith) (omega arith) (omega arith) (omega arith) (inl refl)
