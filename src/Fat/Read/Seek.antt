-- ===== src/Fat/Read/Seek.antt =====
-- Where `seek` puts a handle.
use mathlib.Core.Path.{subst}
use aidos.Common.{
  ℕ, zero, suc, ◌+◌, ◌-◌, ◌*◌, ◌/◌, ◌≤◌, ◌<◌, ◌≡◌, inl, inr, refl, sym, ap, ◌∙◌, arith, Bool, true,
  false, not, ◌&&◌, Option, some, ltb, leb, Bool-cases, u32,
}
use aidos.Fat.{FileData, Fat, file_data, set_file_data}
use aidos.Fat.Cluster.{next_cluster, cluster_to_lba}
use aidos.Fat.Read.{seek_loop, load_at, seek}
use aidos.Fat.Read.Volume.{
  Volume, IsVolume, IsOn, lba_of, IsFile, Stands, file_data-set, set_file_data-IsOn,
}
use aidos.Fat.Read.Sector.{next_cluster-IsOnlyCache, next_cluster-linked, lba_lem}

module _ (v : Volume) (ok : IsVolume v) (clusters : ℕ → ℕ) (size : ℕ) (content : ℕ → ℕ)
    (file : IsFile v clusters size content) where
  -- The walk ends in cluster `n` of the file, `offset` bytes into it.
  record Sought (p : ℕ) (s : Fat) (result : Option (ℕ × ℕ) × Fat) : Type 0 where
    n : ℕ
    offset : ℕ
    s' : Fat
    returns : result ≡ (some (clusters n, offset), s')
    place : n * v.spc * 512 + offset ≡ p
    inside : offset < v.spc * 512
    on : IsOn v s'
    files : (handle : ℕ) → file_data handle s' ≡ file_data handle s

  seek_loop-Sought :
      (rounds n offset p : ℕ) (s : Fat)
      → IsOn v s
      → n * v.spc * 512 + offset ≡ p
      → p < size
      → offset < rounds
      → Sought p s (seek_loop v.disk rounds (clusters n) offset s)
  unfolding seek_loop
  seek_loop-Sought zero n offset p s on place within enough = absurd (omega (arith, enough))
  seek_loop-Sought (suc rounds) n offset p s on place within enough =
      elim (Bool-cases (ltb offset (v.spc * 512))) [
        | inl here ↦
            rw (on.spc, here)
              (record {
                n = n;
                offset = offset;
                s' = s;
                returns = refl;
                place = place;
                inside = ground arith;
                on = on;
                files = λ handle. refl;
              })
        | inr behind ↦
            let grows : (n + 1) * v.spc ≡ n * v.spc + v.spc = omega arith in
            let long : v.spc * 512 ≤ offset = ground arith in
            let more : (n + 1) * v.spc * 512 < size = omega (arith, grows, long, place, within) in
            let linked = next_cluster-linked v ok clusters size content file s n on more in
            let only = next_cluster-IsOnlyCache v.disk (clusters n) s in
            let rest =
              seek_loop-Sought rounds (n + 1) (offset - v.spc * 512) p
                (next_cluster v.disk (clusters n) s).1 linked.1 (omega (arith, grows, long, place))
                within (omega (arith, long, ok.pos, enough)) in
            let on_chain : leb 0xFFFF_FFF8 (clusters (n + 1)) ≡ false =
              ground (arith, file.high (n + 1) more) in
            rw (on.spc, behind, linked.0, on_chain)
              (record {
                n = rest.n;
                offset = rest.offset;
                s' = rest.s';
                returns = rest.returns;
                place = rest.place;
                inside = rest.inside;
                on = rest.on;
                files = λ handle. rest.files handle ∙ only.files handle;
              })
      ]

  -- The handle is open for the file.
  pub record IsOpenFor (fd : FileData) : Type 0 where
    pub opened : fd.opened ≡ true
    pub plain : fd.public.is_directory ≡ false
    pub bytes : fd.public.size ≡ size
    pub first : fd.first_cluster ≡ clusters 0

  pub record Seeks (handle p : ℕ) (result : Bool × Fat) : Type 0 where
    pub s' : Fat
    pub returns : result ≡ (true, s')
    pub stands : Stands v clusters size handle p s'

  load_at-Seeks :
      (handle p n offset : ℕ) (t : Fat)
      → IsOn v t
      → IsOpenFor (file_data handle t)
      → (file_data handle t).public.position ≡ p
      → n * v.spc * 512 + offset ≡ p
      → offset < v.spc * 512
      → p < size
      → Seeks handle p (load_at v.disk handle (clusters n) offset t)
  unfolding load_at
  load_at-Seeks handle p n offset t on open_for position place inside within =
      let fd = file_data handle t in
      let j = offset / 512 in
      let lba : u32 (cluster_to_lba (clusters n) t + j) ≡ lba_of v (clusters n) + j =
        lba_lem v ok clusters size content file t n j on (omega (arith, inside))
          (omega (arith, place, within)) in
      let out = v.disk.read_sectors (lba_of v (clusters n) + j) 1 fd.buffer in
      let moved : FileData = record fd {
        current_cluster = clusters n;
        current_sector_in_cluster = j;
        buffer = out.1;
      } in
      let done = ok.holds.succeeds (lba_of v (clusters n) + j) fd.buffer in
      record {
        s' = set_file_data handle moved t;
        returns = rw lba (ap (λ (d : Bool). (d, set_file_data handle moved t)) done);
        stands = record {
          n = n;
          j = j;
          on = set_file_data-IsOn v handle moved t on;
          at = rw (file_data-set handle moved t) (record {
            opened = open_for.opened;
            plain = open_for.plain;
            bytes = open_for.bytes;
            position = position;
            cluster = refl;
            sector = refl;
            place = omega (arith, place, inside);
            inside = omega (arith, inside);
            within = within;
            buffer = λ a k. ok.holds.gives (lba_of v (clusters n) + j) fd.buffer a k;
          });
        };
      }

  abbrev set_to : (handle p : ℕ) → Fat → Fat
  set_to handle p s =
      set_file_data handle
        (record (file_data handle s) {
          public = record (file_data handle s).public { position = p };
        })
        s

  Sought-Seeks :
      (handle p : ℕ) (s : Fat)
      → IsOpenFor (file_data handle s)
      → p < size
      → Sought p
          (set_to handle p s)
          (seek_loop v.disk (p + 1) (file_data handle s).first_cluster p (set_to handle p s))
      → Seeks handle p (seek v.disk handle p s)
  unfolding seek
  Sought-Seeks handle p s open_for within q =
      let fd = file_data handle s in
      let same = q.files handle ∙ file_data-set handle _ s in
      let in_bounds : (not fd.public.is_directory && ltb fd.public.size p) ≡ false =
        ground (arith, open_for.bytes, within) in
      let is_open : not fd.opened ≡ false = rw open_for.opened refl in
      rw (in_bounds, is_open, q.returns, q.returns)
        (load_at-Seeks handle p q.n q.offset q.s' q.on
          (record {
            opened = ap (λ (f : FileData). f.opened) same ∙ open_for.opened;
            plain = ap (λ (f : FileData). f.public.is_directory) same ∙ open_for.plain;
            bytes = ap (λ (f : FileData). f.public.size) same ∙ open_for.bytes;
            first = ap (λ (f : FileData). f.first_cluster) same ∙ open_for.first;
          })
          (ap (λ (f : FileData). f.public.position) same) q.place q.inside within)

  -- On a volume whose reads succeed, with a handle that is open for a file whose clusters the table
  -- links and none of whose table entries reaches over the end of a sector, `seek` to a position before
  -- the end succeeds, and the handle then stands there, with the sector of the position in its buffer.
  pub seek-Seeks :
      (handle p : ℕ) (s : Fat)
      → IsOn v s
      → IsOpenFor (file_data handle s)
      → p < size
      → Seeks handle p (seek v.disk handle p s)
  seek-Seeks handle p s on open_for within = Sought-Seeks handle p s open_for within (
      subst
        (λ (c : ℕ). Sought p (set_to handle p s) (seek_loop v.disk (p + 1) c p (set_to handle p s)))
        (sym open_for.first)
        (seek_loop-Sought (p + 1) 0 p p (set_to handle p s) (set_file_data-IsOn v handle _ s on)
          (omega arith) within (omega arith)))
