-- ===== src/Transfer/Tests.antt =====
-- Concrete transfers: each theorem on src/packed-grid/transferPipeline.ts, and on the leases and acknowledgements of
-- src/packed-sweep/transferClient.ts, applied to one.
use mistr.Prelude.{
  ◌==◌, if◌then◌else◌, Result, ok, err, any, ℕ, ◌+◌, ◌≡◌, refl, ◌⊎◌, true, false, ◌&&◌, some, List,
  [], ◌∷◌,
}
use mistr.Transfer.Pipeline.{consume_pipelined_leases}
use mistr.Transfer.Pipeline.Leases.{
  requests, releases, acquired, consume_pipelined_leases-releases, consumptions,
}
use mistr.Transfer.Pipeline.Credits.{
  IsCredited, consume_pipelined_leases-IsCredited, IsServed, consume_pipelined_leases_completes,
}
use mistr.Transfer.Acquire.{
  acquire_all_or_release, AllOk, Gathers, first_error, acquire_all_or_release-Gathers,
}
use mistr.Transfer.Acks.{contains, acknowledge_release, flush_pending_release_acks, Backend, sets}
use mistr.Transfer.Acks.Laws.{IsLeft, tells, flush-IsFlushed, Flushes}

-- Items are numbers, and so are leases; the upload of lease 13 fails.
abbrev grants : ℕ → Result ℕ ℕ
grants item = ok (item + 10)

abbrev uploads : ℕ → Result ℕ (Unit {0})
uploads lease = if lease == 13 then err 99 else ok tt

abbrev releases_well : ℕ → Result ℕ (Unit {0})
releases_well lease = ok tt

consume_pipelined_leases-releases_example :
    let actions = (consume_pipelined_leases grants uploads releases_well (1 ∷ 3 ∷ 4 ∷ 5 ∷ [])).1 in
    releases actions ≡ acquired grants uploads releases_well (requests actions)
consume_pipelined_leases-releases_example =
    consume_pipelined_leases-releases grants uploads releases_well (1 ∷ 3 ∷ 4 ∷ 5 ∷ [])

consume_pipelined_leases-IsCredited_example :
    IsCredited 0 (consume_pipelined_leases grants uploads releases_well (1 ∷ 3 ∷ 4 ∷ 5 ∷ [])).1
consume_pipelined_leases-IsCredited_example =
    consume_pipelined_leases-IsCredited grants uploads releases_well (1 ∷ 3 ∷ 4 ∷ 5 ∷ [])

served : (item : ℕ) → uploads (item + 10) ≡ ok tt → IsServed grants uploads releases_well item
served item uploaded = record { lease = item + 10; got = refl; uploaded = uploaded; let_go = refl }

consume_pipelined_leases_completes_example :
    let t = consume_pipelined_leases grants uploads releases_well (1 ∷ 2 ∷ 4 ∷ []) in
    (t.0 ≡ ok tt)
    × (requests t.1 ≡ 1 ∷ 2 ∷ 4 ∷ [])
    × (consumptions t.1 ≡ acquired grants uploads releases_well (1 ∷ 2 ∷ 4 ∷ []))
consume_pipelined_leases_completes_example =
    consume_pipelined_leases_completes grants uploads releases_well (1 ∷ 2 ∷ 4 ∷ [])
      (served 1 refl, (served 2 refl, (served 4 refl, tt)))

-- The second of three requests fails.
abbrev one_fails : List (Result ℕ ℕ)
one_fails = ok 1 ∷ err 7 ∷ ok 3 ∷ []

acquire_all_or_release-Gathers_example :
    let (r, let_go) = acquire_all_or_release one_fails in
    ((leases : List ℕ) → r ≡ ok leases → AllOk one_fails leases × (let_go ≡ []))
    × ((e : ℕ) → r ≡ err e → Gathers one_fails let_go × (first_error one_fails ≡ some e))
acquire_all_or_release-Gathers_example = acquire_all_or_release-Gathers one_fails

-- Acknowledgement 2 cannot be told; acknowledgement 1 can at the second attempt, and 4 comes while it is.
abbrev backend_here : Backend
backend_here = record {
  told = λ id attempt. if id == 1 then attempt == 1 else id == 3;
  during = λ id attempt. if id == 1 && attempt == 1 then sets 4 ∷ [] else [];
  delayed = λ id attempt. [];
}

second_stays : flush_pending_release_acks backend_here (1 ∷ 2 ∷ 3 ∷ []) ≡ (record {
  done = false;
  calls = (1, 0) ∷ (1, 1) ∷ (2, 0) ∷ (2, 1) ∷ (2, 2) ∷ [];
  pending = 2 ∷ 3 ∷ 4 ∷ [];
})
unfolding flush_pending_release_acks
second_stays = refl

flush-IsFlushed_example :
    let pending : List ℕ = 1 ∷ 2 ∷ 3 ∷ [] in
    let f = flush_pending_release_acks backend_here pending in
    Flushes backend_here pending f.done f.calls
    × ((id : ℕ)
        → IsLeft backend_here id
        → contains id pending ≡ true
        → (contains id f.pending ≡ true) ⊎ (any (λ c. tells backend_here id c) f.calls ≡ true))
    × ((id : ℕ) (held : List ℕ)
        → (acknowledge_release backend_here id held).done ≡ true
        → contains id (acknowledge_release backend_here id held).pending ≡ false)
flush-IsFlushed_example = flush-IsFlushed backend_here (1 ∷ 2 ∷ 3 ∷ [])
