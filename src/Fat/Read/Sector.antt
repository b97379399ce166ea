-- ===== src/Fat/Read/Sector.antt =====
-- The end of a round of `read`: the next sector of the file in the buffer.
use native.Mathlib.Nat.{mul-le-mul_right}
use aidos.Common.{
  ℕ, ◌+◌, ◌-◌, ◌*◌, ◌/◌, ◌≤◌, ◌<◌, ◌≡◌, inl, inr, refl, ap, ◌∙◌, arith, Bool, true, false, leb,
  Bool-cases, u32, sub32,
}
use aidos.Fat.{BlockDevice, FileData, Fat, file_data, set_file_data}
use aidos.Fat.Cluster.{next_cluster, cluster_to_lba, fill_cache, read_fat, is_miss}
use aidos.Fat.Cluster.Laws.{widened, next_cluster-fat12_entry}
use aidos.Fat.Read.{next_place, next_sector}
use aidos.Fat.Read.Volume.{
  Volume, IsVolume, IsOn, lba_of, IsFile, IsLeaving, Stands, file_data-set, set_file_data-IsOn,
}

-- `NextCluster` changes the cache only.
pub record IsOnlyCache (s s' : Fat) : Type 0 where
  pub boot : s'.boot_sector ≡ s.boot_sector
  pub start : s'.data_section_lba ≡ s.data_section_lba
  pub files : (handle : ℕ) → file_data handle s' ≡ file_data handle s

pub next_cluster-IsOnlyCache :
    (disk : BlockDevice) (c : ℕ) (s : Fat) → IsOnlyCache s (next_cluster disk c s).1
unfolding next_cluster fill_cache read_fat
next_cluster-IsOnlyCache disk c s = elim (Bool-cases (is_miss (u32 (c * 3) / 2 / 512) s)) [
  | inl miss ↦ rw miss (record { boot = refl; start = refl; files = λ handle. refl })
  | inr hit ↦ rw hit (record { boot = refl; start = refl; files = λ handle. refl })
]

module _ (v : Volume) (ok : IsVolume v) (clusters : ℕ → ℕ) (size : ℕ) (content : ℕ → ℕ)
    (file : IsFile v clusters size content) where
  pub next_cluster-linked :
      (s : Fat) (n : ℕ)
      → IsOn v s
      → (n + 1) * v.spc * 512 < size
      → ((next_cluster v.disk (clusters n) s).0 ≡ clusters (n + 1))
        × IsOn v (next_cluster v.disk (clusters n) s).1
  next_cluster-linked s n on h =
      let before : n * v.spc * 512 < size =
        (let grow : n * v.spc ≤ (n + 1) * v.spc = mul-le-mul_right v.spc (omega arith) in
          omega (arith, grow)) in
      let only = next_cluster-IsOnlyCache v.disk (clusters n) s in
      let entry =
        next_cluster-fat12_entry v.disk v.table s (rw on.reserved ok.serves) on.cached
          (rw on.reserved ok.few) (clusters n) (file.high n before)
          (λ e. file.whole n before (omega (arith, e))) in
      (
        entry.0 ∙ ap widened (file.linked n h) ∙ ground (arith, file.high (n + 1) h),
        record {
          reserved = rw only.boot on.reserved;
          spc = rw only.boot on.spc;
          start = only.start ∙ on.start;
          cached = entry.1;
        },
      )

  record Placed (handle p : ℕ) (s : Fat) : Type 0 where
    n : ℕ
    j : ℕ
    s' : Fat
    there : next_place v.disk (file_data handle s) s ≡ (clusters n, j, s')
    place : p ≡ (n * v.spc + j) * 512
    inside : j < v.spc
    on : IsOn v s'

  next_place-Placed :
      (handle p n j : ℕ) (s : Fat)
      → IsOn v s
      → IsLeaving v clusters size p n j (file_data handle s)
      → Placed handle p s
  unfolding next_place
  next_place-Placed handle p n j s on at =
      let up : u32 ((file_data handle s).current_sector_in_cluster + 1) ≡ j + 1 =
        rw at.sector (omega (arith, at.inside, ok.byte)) in
      elim (Bool-cases (leb v.spc (j + 1))) [
        | inl last ↦
            let over : (n + 1) * v.spc ≡ n * v.spc + j + 1 = ground (arith, at.inside) in
            let linked = next_cluster-linked s n on (omega (arith, over, at.place, at.within)) in
            record {
              n = n + 1;
              j = 0;
              s' = (next_cluster v.disk (clusters n) s).1;
              there = rw (up, on.spc, last, at.cluster) (rw linked.0 refl);
              place = omega (arith, over, at.place);
              inside = ok.pos;
              on = linked.1;
            }
        | inr more ↦ record {
          n = n;
          j = j + 1;
          s' = s;
          there = rw (up, on.spc, more, at.cluster) refl;
          place = omega (arith, at.place);
          inside = ground arith;
          on = on;
        }
      ]

  pub lba_lem :
      (s : Fat) (n j : ℕ)
      → IsOn v s
      → j < v.spc
      → n * v.spc * 512 < size
      → u32 (cluster_to_lba (clusters n) s + j) ≡ lba_of v (clusters n) + j
  unfolding cluster_to_lba
  lba_lem s n j on inside h =
      let down : sub32 (clusters n) 2 ≡ clusters n - 2 =
        omega (arith, file.low n h, file.high n h) in
      let over : (clusters n - 2) * v.spc ≤ 0xFF8 * v.spc =
        mul-le-mul_right v.spc (omega (arith, file.high n h)) in
      rw (on.spc, on.start, down) (omega (arith, over, ok.low, ok.byte, inside))

  pub record Went (handle p : ℕ) (s : Fat) : Type 0 where
    pub s' : Fat
    pub goes : next_sector v.disk handle s ≡ (true, s')
    pub stands : Stands v clusters size handle p s'

  pub next_sector-Went :
      (handle p n j : ℕ) (s : Fat)
      → IsOn v s
      → IsLeaving v clusters size p n j (file_data handle s)
      → Went handle p s
  unfolding next_sector
  next_sector-Went handle p n j s on at =
      let q = next_place-Placed handle p n j s on at in
      let h : q.n * v.spc * 512 < size = omega (arith, q.place, at.within) in
      let fd = file_data handle s in
      let lba : u32 (cluster_to_lba (clusters q.n) q.s' + q.j) ≡ lba_of v (clusters q.n) + q.j =
        lba_lem q.s' q.n q.j q.on q.inside h in
      let on_chain : leb 0xFFFF_FFF8 (clusters q.n) ≡ false = ground (arith, file.high q.n h) in
      let out = v.disk.read_sectors (lba_of v (clusters q.n) + q.j) 1 fd.buffer in
      let moved : FileData = record fd {
        current_cluster = clusters q.n;
        current_sector_in_cluster = q.j;
        buffer = out.1;
      } in
      let done = ok.holds.succeeds (lba_of v (clusters q.n) + q.j) fd.buffer in
      record {
        s' = set_file_data handle moved q.s';
        goes =
            rw q.there
              (rw (lba, on_chain) (ap (λ (d : Bool). (d, set_file_data handle moved q.s')) done));
        stands = record {
          n = q.n;
          j = q.j;
          on = set_file_data-IsOn v handle moved q.s' q.on;
          at = rw (file_data-set handle moved q.s') (record {
            opened = at.opened;
            plain = at.plain;
            bytes = at.bytes;
            position = at.position;
            cluster = refl;
            sector = refl;
            place = omega (arith, q.place);
            inside = q.inside;
            within = at.within;
            buffer = λ a k. ok.holds.gives (lba_of v (clusters q.n) + q.j) fd.buffer a k;
          });
        };
      }
