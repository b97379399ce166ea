-- ===== src/Fat/Open/Laws.antt =====
-- `open` of a file of the root directory.
use native.Mathlib.Nat.{mul-le-mul_right}
use aidos.Common.{
  sub32, ℕ, ◌+◌, ◌-◌, ◌*◌, ◌≤◌, ◌<◌, ◌≡◌, ◌∙◌, inl, inr, refl, arith, ap, sym, Bool, true, false,
  Option, some, List, ◌∷◌, length, ◌==◌,
}
use aidos.Mem.{Memory}
use aidos.Str.Laws.{NoNul, NotIn}
use aidos.Fat.{FileData, Fat, file_data, root_directory_handle}
use aidos.Fat.Read.{close}
use aidos.Fat.Entry.{
  Search, found, not_found, unfinished, find_loop, find_file, open_entry, is_directory,
  first_cluster_low, first_cluster_high,
}
use aidos.Fat.Entry
use aidos.Fat.Entry.Find.{entry_at}
use aidos.Fat.Cluster.{cluster_to_lba}
use aidos.Fat.Entry.Laws.{out_of_handles, with_handle, IsOpening, open_entry-Opens}
use aidos.Fat.Read.Volume.{Volume, IsVolume, IsOn, IsFile, IsAt, Stands, lba_of}
use aidos.Fat.Read.Seek.{IsOpenFor}
use aidos.Fat.Open.{slash, Opening, returned, open_path}
use aidos.Fat.Open.Rounds.{IsInRoot, open_path-found}

-- Closing the root directory changes nothing but where it stands.
pub close-IsOn : (v : Volume) (s : Fat) → IsOn v s → IsOn v (close root_directory_handle s)
unfolding close
close-IsOn v s on = record {
  reserved = on.reserved;
  spc = on.spc;
  start = on.start;
  cached = record { position = on.cached.position; holds = on.cached.holds };
}

pub close-opened_files : (s : Fat) → (close root_directory_handle s).opened_files ≡ s.opened_files
unfolding close
close-opened_files s = refl

module _ (v : Volume) (ok : IsVolume v) (clusters : ℕ → ℕ) (size : ℕ) (content : ℕ → ℕ)
    (file : IsFile v clusters size content) where
  -- The directory entry is that of the file.
  pub record IsEntryOf (entry : List ℕ) : Type 0 where
    pub plain : is_directory entry ≡ false
    pub bytes : Entry.size entry ≡ size
    pub first : first_cluster_low entry + first_cluster_high entry * 0x1_0000 ≡ clusters 0

  -- A handle is open for the file, at its start.
  pub record OpensFile (result : Opening) : Type 0 where
    pub handle : ℕ
    pub s' : Fat
    pub returns : result ≡ returned (some handle) s'
    pub on : IsOn v s'
    pub is_open : IsOpenFor v ok clusters size content file (file_data handle s')
    pub stands : Stands v clusters size handle 0 s'

  opening-IsOn :
      (entry : List ℕ) (s : Fat) (h : ℕ) {result : Option ℕ × Fat}
      → IsOn v s
      → IsOpening v.disk entry s h result
      → IsOn v result.1
  opening-IsOn entry s h on o = record {
    reserved = rw o.boot on.reserved;
    spc = rw o.boot on.spc;
    start = o.layout ∙ on.start;
    cached = record {
      position = rw o.cache.1 on.cached.position;
      holds = rw (o.cache.0, o.cache.1) on.cached.holds;
    };
  }

  first_lba :
      (s : Fat) → IsOn v s → 0 < size → cluster_to_lba (clusters 0) s ≡ lba_of v (clusters 0)
  unfolding cluster_to_lba
  first_lba s on some_bytes =
      let at_zero : 0 * v.spc * 512 < size = omega arith in
      let down : sub32 (clusters 0) 2 ≡ clusters 0 - 2 =
        omega (arith, file.low 0 at_zero, file.high 0 at_zero) in
      let over : (clusters 0 - 2) * v.spc ≤ 0xFF8 * v.spc =
        mul-le-mul_right v.spc (omega (arith, file.high 0 at_zero)) in
      rw (on.spc, on.start, down) (omega (arith, over, ok.low, ok.byte))

  -- What `OpenEntry` reads.
  first_sector :
      (s : Fat) (before : Memory) (fd : FileData)
      → IsOn v s
      → 0 < size
      → fd.first_cluster ≡ clusters 0
      → v.disk.read_sectors (cluster_to_lba fd.first_cluster s) 1 before ≡ (true, fd.buffer)
      → (a : ℕ) → a < 512
      → fd.buffer a ≡ v.image ((lba_of v (clusters 0) + 0) * 512 + a)
  first_sector s before fd on some_bytes first loaded a lt =
      let lba : cluster_to_lba fd.first_cluster s ≡ lba_of v (clusters 0) =
        rw first (first_lba s on some_bytes) in
      let read : v.disk.read_sectors (lba_of v (clusters 0)) 1 before ≡ (true, fd.buffer) =
        rw lba at loaded in
      let same : lba_of v (clusters 0) + 0 ≡ lba_of v (clusters 0) = omega arith in
      rw same (
        sym (ap (λ (r : Bool × Memory). r.1 a) read)
        ∙ ok.holds.gives (lba_of v (clusters 0)) before a lt)

  -- The outcome of `OpenEntry` on the entry of the file.
  IsOpening-OpensFile :
      (entry : List ℕ) (s : Fat) (h : ℕ) (result : Option ℕ × Fat)
      → IsOn v s
      → 0 < size
      → h < 10
      → IsEntryOf entry
      → IsOpening v.disk entry s h result
      → OpensFile (returned result.0 result.1)
  IsOpening-OpensFile entry s h result on some_bytes lt e o =
      let at_zero : 0 * v.spc * 512 < size = omega arith in
      let low = file.low 0 at_zero in
      let high = file.high 0 at_zero in
      let first : (result.1.opened_files h).first_cluster ≡ clusters 0 = o.set.first ∙ e.first in
      let here : file_data h result.1 ≡ result.1.opened_files h =
        let other : (h == root_directory_handle) ≡ false = ground arith in rw other refl in
      elim o.outcome [
        | inl (handle_ok, loaded) ↦
            let fd = result.1.opened_files h in
            let at_start : IsAt v clusters size 0 0 0 fd = record {
              opened = loaded.opened;
              plain = o.set.kind ∙ e.plain;
              bytes = o.set.bytes ∙ e.bytes;
              position = o.set.start;
              cluster = o.set.current ∙ first;
              sector = o.set.sector;
              place = omega arith;
              inside = ok.pos;
              within = some_bytes;
              buffer =
                  first_sector s (s.opened_files h).buffer fd on some_bytes first loaded.loaded;
            } in
            record {
              handle = h;
              s' = result.1;
              returns = ap (λ (r : Option ℕ). returned r result.1) handle_ok;
              on = opening-IsOn entry s h on o;
              is_open = rw here (record {
                opened = loaded.opened;
                plain = o.set.kind ∙ e.plain;
                bytes = o.set.bytes ∙ e.bytes;
                first = first;
              });
              stands = record {
                n = 0;
                j = 0;
                on = opening-IsOn entry s h on o;
                at = rw here at_start;
              };
            }
        | inr (null, refused) ↦ elim refused.reason [
          | inl below ↦ absurd (omega (arith, first))
          | inr (inl above) ↦ absurd (omega (arith, first))
          | inr (inr failed) ↦ absurd (
              cc (
                ok.holds.succeeds (cluster_to_lba (result.1.opened_files h).first_cluster s)
                    (s.opened_files h).buffer,
                failed,
              ))
        ]
      ]

  -- On a volume whose reads succeed, with the root directory at its start and its first sector in the buffer,
  -- for a file of at least one byte whose entry is the first with the name among the first fifteen, no empty
  -- one before it, and with a free handle, `open` of a slash and the name, of at most 255 bytes, gives a
  -- handle that stands at the start of the file, as `read` and `seek` want it, if the search has a round
  -- for each entry up to the file's.
  pub open_path-OpensFile :
      (rounds k c : ℕ) (path : List ℕ) (s : Fat) (free : ℕ)
      → IsOn v s
      → IsInRoot (c ∷ path) k s
      → IsEntryOf (entry_at s.root_directory.buffer k)
      → 0 < size
      → NoNul (c ∷ path)
      → NotIn slash (c ∷ path)
      → length (c ∷ path) < 256
      → k < rounds
      → free < 10
      → (s.opened_files free).opened ≡ false
      → OpensFile (open_path v.disk rounds (slash ∷ c ∷ path) s)
  open_path-OpensFile rounds k c path s free on r e some_bytes no_nul no_slash short enough below
        idle =
      let entry = entry_at s.root_directory.buffer k in
      let closed = close root_directory_handle s in
      let result = open_entry v.disk entry closed in
      let opened : OpensFile (returned result.0 result.1) =
        elim (open_entry-Opens v.disk entry closed) [
          | out_of_handles taken same ↦
              absurd (cc (rw (close-opened_files s) at (taken free below), idle))
          | with_handle h lt idle' others o ↦
              IsOpening-OpensFile entry closed h result (close-IsOn v s on) some_bytes lt e o
        ] in
      rw (open_path-found v.disk rounds k c path s r no_nul no_slash short enough) opened
