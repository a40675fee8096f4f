-- ===== src/Resource/Tests.antt =====
-- The resources of three threads, and the first handles.
use netter.Common.{suc, ◌^◌, ◌≡◌, refl, false, arith}
use netter.Resource.Handles.{allocate_many, count_up, ones, allocate_many-count_up}

allocate_many-count_up_example :
    (allocate_many 2 (suc 0) (λ handle. false) 7 ≡ count_up 7 2)
    × (allocate_many 2 (suc 0) (λ handle. false) (2 ^ 31) ≡ ones 2)
allocate_many-count_up_example =
    allocate_many-count_up 2 0 7 (λ handle. false) (λ handle. refl) (omega arith)
