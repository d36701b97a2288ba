-- ===== src/Memory/Accesses.antt =====
-- src/memory: sequences of accesses of the hart, on the memory and on an array of bytes.
use besm.Memory.Pages.{IsShort}
use besm.Prelude.{ℕ, List, [], ◌∷◌, ◌≡◌, refl, sym, ap, ◌∙◌, subst}
use besm.Memory.Bytes.{Bytes, read_le, write_le}
use besm.Memory.Outcome.{
  Outcome, done, unaligned, invalid_address, invalid_argument, mapping_intersection, bad_alloc,
  undefined, ◌>>=◌,
}
use besm.Memory.Allocator.{Host}
use besm.Memory.Pages.{IsAnonymous}
use besm.Memory.Range.{Range}
use besm.Memory.PhysMem.{PhysMem}
use besm.Memory.Ram.{Ram}
use besm.Memory.Physical.{IsAccess, view}
use besm.Memory.Prefetcher.{Memory, load_word, load, store}
use besm.Memory.Fetched.{Fetched, load_word-Fetched}
use besm.Memory.Refined.{
  Holds, IsSameLayout, IsLeft, Kept, layout-IsAccess, layout-IsWhole, load-Holds, store-Kept,
}

-- What the hart asks of the memory.
pub data Access : Type 0 where
  loads : ℕ → ℕ → Access
  stores : ℕ → ℕ → ℕ → Access
  fetches : ℕ → Access

-- The memory's answer; a store answers nothing.
unfoldable pub perform : Host → Access → Memory → Outcome (ℕ × Memory)
perform host (loads n address) mem = load n mem address
perform host (stores n address value) mem =
    store host n mem address value >>= (λ after. done (0, after))
perform host (fetches address) mem = load_word mem address

unfoldable pub run : Host → List Access → Memory → Outcome (List ℕ)
unfolding perform
run host [] mem = done []
run host (access ∷ accesses) mem =
    perform host access mem
    >>= (λ (answer, after). run host accesses after >>= (λ answers. done (answer ∷ answers)))

-- The same of an array of bytes.
unfoldable pub answer_of : Access → Bytes → ℕ
answer_of (loads n address) bytes = read_le n address bytes
answer_of (stores n address value) bytes = 0
answer_of (fetches address) bytes = read_le 4 address bytes

unfoldable pub bytes_after : Access → Bytes → Bytes
bytes_after (loads n address) bytes = bytes
bytes_after (stores n address value) bytes = write_le n address value bytes
bytes_after (fetches address) bytes = bytes

unfoldable pub answers_of : List Access → Bytes → List ℕ
unfolding answer_of bytes_after
answers_of [] bytes = []
answers_of (access ∷ accesses) bytes =
    answer_of access bytes ∷ answers_of accesses (bytes_after access bytes)

-- Aligned, and inside a device.
unfoldable pub IsAllowed : PhysMem → Access → Type 0
IsAllowed mem (loads n address) =
    (range : Range) × (device : ℕ) × IsAccess n address mem range device
IsAllowed mem (stores n address value) =
    (range : Range) × (device : ℕ) × IsAccess n address mem range device
IsAllowed mem (fetches address) =
    (range : Range) × (device : ℕ) × IsAccess 4 address mem range device

unfoldable pub AreAllowed : PhysMem → List Access → Type 0
unfolding IsAllowed
AreAllowed mem [] = Unit
AreAllowed mem (access ∷ accesses) = IsAllowed mem access × AreAllowed mem accesses

layout-AreAllowed :
    {before after : PhysMem}
    → IsSameLayout before after
    → (accesses : List Access) → AreAllowed before accesses
    → AreAllowed after accesses
unfolding AreAllowed IsAllowed
layout-AreAllowed same [] all = tt
layout-AreAllowed same (loads n address ∷ accesses) ((range, device, access), all) =
    ((range, device, layout-IsAccess same access), layout-AreAllowed same accesses all)
layout-AreAllowed same (stores n address value ∷ accesses) ((range, device, access), all) =
    ((range, device, layout-IsAccess same access), layout-AreAllowed same accesses all)
layout-AreAllowed same (fetches address ∷ accesses) ((range, device, access), all) =
    ((range, device, layout-IsAccess same access), layout-AreAllowed same accesses all)

-- An access answers as the bytes do, and leaves theirs.
unfoldable pub Performed : Host → Access → Memory → Bytes → Outcome (ℕ × Memory) → Type 0
Performed host access before bytes (done (answer, after)) =
    (answer ≡ answer_of access bytes) × IsLeft host before after (bytes_after access bytes)
Performed host access before bytes bad_alloc = IsShort host
Performed host access before bytes _ = ⊥

stored :
    (host : Host) (n address value : ℕ) (mem : Memory) (bytes : Bytes) (outcome : Outcome Memory)
    → Kept host mem (write_le n address value bytes) outcome
    → Performed host (stores n address value) mem bytes (outcome >>= (λ after. done (0, after)))
unfolding Kept Performed answer_of bytes_after
stored host n address value mem bytes (done after) is = (refl, is)
stored host n address value mem bytes unaligned is = absurd is
stored host n address value mem bytes invalid_address is = absurd is
stored host n address value mem bytes invalid_argument is = absurd is
stored host n address value mem bytes mapping_intersection is = absurd is
stored host n address value mem bytes bad_alloc is = is
stored host n address value mem bytes undefined is = absurd is

same-view :
    (before after : PhysMem)
    → after.devices ≡ before.devices
    → after.rams ≡ before.rams
    → view after ≡ view before
unfolding view
same-view before after devices rams = rw (devices, rams) refl

pub fetched :
    (host : Host) (address : ℕ) (mem : Memory) (bytes : Bytes) (outcome : Outcome (ℕ × Memory))
    → Holds host mem bytes
    → Fetched host address mem.phys outcome
    → Performed host (fetches address) mem bytes outcome
unfolding Fetched Performed answer_of bytes_after
fetched host address mem bytes (done (word, after)) holds is =
    let same : IsSameLayout mem.phys after.phys = record {
      devices = is.devices;
      page_size = λ device. ap (λ (rams : ℕ → Ram). (rams device).page_size) is.rams;
    } in
    (
      is.value ∙ ap (read_le 4 address) holds.bytes_are,
      record {
        holds = record {
          valid = is.valid;
          whole = layout-IsWhole same holds.whole;
          linked = is.linked;
          bytes_are = same-view mem.phys after.phys is.devices is.rams ∙ holds.bytes_are;
        };
        layout = same;
      },
    )
fetched host address mem bytes unaligned holds is = absurd is
fetched host address mem bytes invalid_address holds is = absurd is
fetched host address mem bytes invalid_argument holds is = absurd is
fetched host address mem bytes mapping_intersection holds is = absurd is
fetched host address mem bytes bad_alloc holds is = absurd is
fetched host address mem bytes undefined holds is = absurd is

loaded :
    (host : Host) (n address : ℕ) (mem after : Memory) (bytes : Bytes)
    → IsLeft host mem after bytes
    → Performed host (loads n address) mem bytes (done (read_le n address bytes, after))
unfolding Performed answer_of bytes_after
loaded host n address mem after bytes is = (refl, is)

perform-Performed :
    (host : Host) (access : Access) (mem : Memory) (bytes : Bytes)
    → IsAnonymous host
    → Holds host mem bytes
    → IsAllowed mem.phys access
    → Performed host access mem bytes (perform host access mem)
unfolding perform IsAllowed
perform-Performed host (loads n address) mem bytes anonymous holds (range, device, access) =
    let (after, e, is) = load-Holds holds access in
    subst (λ o. Performed host (loads n address) mem bytes o) (sym e)
      (loaded host n address mem after bytes is)
perform-Performed host (stores n address value) mem bytes anonymous holds (range, device, access) =
    stored host n address value mem bytes (store host n mem address value)
      (store-Kept host n address value mem bytes range device anonymous holds access)
perform-Performed host (fetches address) mem bytes anonymous holds (range, device, access) =
    fetched host address mem bytes (load_word mem address) holds
      (load_word-Fetched host mem address range device holds.valid holds.whole holds.linked access)

-- The answers are those of the bytes, unless a page cannot be had.
unfoldable pub Answered : Host → List ℕ → Outcome (List ℕ) → Type 0
Answered host expected (done answers) = answers ≡ expected
Answered host expected bad_alloc = IsShort host
Answered host expected _ = ⊥

behind :
    (host : Host) (answer expected : ℕ) (answers : List ℕ) (outcome : Outcome (List ℕ))
    → answer ≡ expected
    → Answered host answers outcome
    → Answered host (expected ∷ answers) (outcome >>= (λ others. done (answer ∷ others)))
unfolding Answered
behind host answer expected answers (done others) e is = rw (e, is) refl
behind host answer expected answers unaligned e is = absurd is
behind host answer expected answers invalid_address e is = absurd is
behind host answer expected answers invalid_argument e is = absurd is
behind host answer expected answers mapping_intersection e is = absurd is
behind host answer expected answers bad_alloc e is = is
behind host answer expected answers undefined e is = absurd is

answered :
    (host : Host) (access : Access) (accesses : List Access) (mem : Memory) (bytes : Bytes)
    (outcome : Outcome (ℕ × Memory))
    → ((after : Memory)
        → IsLeft host mem after (bytes_after access bytes)
        → Answered host (answers_of accesses (bytes_after access bytes)) (run host accesses after))
    → Performed host access mem bytes outcome
    → Answered host (answers_of (access ∷ accesses) bytes) (
        outcome
        >>= (λ (answer, after). run host accesses after >>= (λ answers. done (answer ∷ answers))))
unfolding Performed Answered answers_of
answered host access accesses mem bytes (done (answer, after)) rest (e, is) =
    behind host answer (answer_of access bytes) (answers_of accesses (bytes_after access bytes))
      (run host accesses after) e (rest after is)
answered host access accesses mem bytes unaligned rest is = absurd is
answered host access accesses mem bytes invalid_address rest is = absurd is
answered host access accesses mem bytes invalid_argument rest is = absurd is
answered host access accesses mem bytes mapping_intersection rest is = absurd is
answered host access accesses mem bytes bad_alloc rest is = is
answered host access accesses mem bytes undefined rest is = absurd is

-- For every sequence of loads, stores and fetches, each aligned and inside one device, on a memory
-- in order whose bytes are `bytes`, over a host whose anonymous mappings are zeros: the answers
-- are those of an array of bytes, whatever the device lookup, the pages and the prefetcher
-- remember, unless a store throws `std::bad_alloc` over a host that gives a null pointer for some
-- mapping.
pub run-Answered :
    (host : Host) (accesses : List Access) (mem : Memory) (bytes : Bytes)
    → IsAnonymous host
    → Holds host mem bytes
    → AreAllowed mem.phys accesses
    → Answered host (answers_of accesses bytes) (run host accesses mem)
unfolding run AreAllowed Answered answers_of
run-Answered host [] mem bytes anonymous holds all = refl
run-Answered host (access ∷ accesses) mem bytes anonymous holds (allowed, all) =
    answered host access accesses mem bytes (perform host access mem)
      (λ after is.
        run-Answered host accesses after (bytes_after access bytes) anonymous is.holds
          (layout-AreAllowed is.layout accesses all))
      (perform-Performed host access mem bytes anonymous holds allowed)
