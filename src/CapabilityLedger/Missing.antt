-- ===== src/CapabilityLedger/Missing.antt =====
-- What missing_investigations of capability_ledger.py reports.
use youk.Prelude.Memᴰ
use youk.Prelude.{
  String, Bool, true, not, ◌&&◌, Option, List, [], ◌∷◌, ◌++◌, map, ◌==◌, sort_by, ◌≡◌, ◌↔◌, inl,
  inr, refl, sym, ap, ◌∙◌, subst, arith, eq_iff, Memᴰ, any-mem, any-of_mem, Bool-cases, sort_by-mem,
  mem-sort_by, select-mem, mem-select,
}
use youk.CapabilityLedger.{
  LedgerEntry, record_investigation, investigated, pairs, hosts_or_all, capabilities_or_all,
  missing_investigations,
}

-- Some entry of the ledger is about the pair.
pub record OnRecord (ledger : List LedgerEntry) (host capability : String) : Type 0 where
  pub entry : LedgerEntry
  pub listed : Memᴰ entry ledger
  pub about_host : entry.host ≡ host
  pub about_capability : entry.capability ≡ capability

investigated-OnRecord :
    (ledger : List LedgerEntry) (h c : String)
    → (investigated ledger (h, c) ≡ true) ↔ OnRecord ledger h c
unfolding investigated
investigated-OnRecord ledger h c =
    let about : LedgerEntry → Bool = λ row. row.host == h && row.capability == c in
    (
      λ e.
          let (row, m, k) = any-mem about ledger e in
          record {
            entry = row;
            listed = m;
            about_host = ground (arith, eq_iff row.host h);
            about_capability = ground (arith, eq_iff row.capability c);
          },
      λ r.
          let row = r.entry in
          let a : row.host == h ≡ true = (eq_iff row.host h).1 r.about_host in
          let b : row.capability == c ≡ true = (eq_iff row.capability c).1 r.about_capability in
          any-of_mem about ledger r.listed (rw (a, b)),
    )

pairs-mem :
    (hosts caps : List String) {h c : String}
    → Memᴰ (h, c) (pairs hosts caps)
    → Memᴰ h hosts × Memᴰ c caps
unfolding pairs
pairs-mem [] caps m = elim m [ ]
pairs-mem (x ∷ hosts) caps {h} {c} m = elim (Memᴰ.append_cases (map (λ k. (x, k)) caps) m) [
  | inr later ↦ let (i, j) = pairs-mem hosts caps later in (Memᴰ.tail i, j)
  | inl here ↦
      let (k, i, e) = Memᴰ.of_map (λ (k : String). (x, k)) caps here in
      (
        Memᴰ.head (sym (ap (λ (p : String × String). p.0) e)),
        subst (λ y. Memᴰ y caps) (ap (λ (p : String × String). p.1) e) i,
      )
]

mem-pairs :
    (hosts caps : List String) {h c : String}
    → Memᴰ h hosts
    → Memᴰ c caps
    → Memᴰ (h, c) (pairs hosts caps)
unfolding pairs
mem-pairs [] caps m i = elim m [ ]
mem-pairs (x ∷ hosts) caps {h} {c} (Memᴰ.head e) i = Memᴰ.append_left (pairs hosts caps) (
    let pair : String → String → String × String = λ y k. (y, k) in
    subst (λ y. Memᴰ (pair y c) (map (pair x) caps)) (sym e) (Memᴰ.map (pair x) i))
mem-pairs (x ∷ hosts) caps (Memᴰ.tail m) i =
    Memᴰ.append_right (map (λ k. (x, k)) caps) (mem-pairs hosts caps m i)

-- missing_investigations reports exactly the pairs of a host and a capability asked about, by
-- default all registered ones, that no entry of the ledger is about.
pub missing_investigations_iff :
    (le : String → String → Bool) (host_ids capabilities : Option (List String))
    (ledger : List LedgerEntry) (h c : String)
    → Memᴰ (h, c) (missing_investigations le host_ids capabilities ledger) ↔ (
        Memᴰ h (hosts_or_all host_ids)
        × Memᴰ c (capabilities_or_all capabilities)
        × (¬ OnRecord ledger h c))
unfolding missing_investigations
missing_investigations_iff le host_ids capabilities ledger h c =
    let hosts = sort_by le (λ x. x) (hosts_or_all host_ids) in
    let caps = capabilities_or_all capabilities in
    let open_pair : String × String → Bool = λ pair. not (investigated ledger pair) in
    (
      λ m.
          let (i, e) = select-mem open_pair (pairs hosts caps) m in
          let (a, b) = pairs-mem hosts caps i in
          (
            sort_by-mem le (λ x. x) (hosts_or_all host_ids) a,
            b,
            λ r. cc (e, (investigated-OnRecord ledger h c).1 r),
          ),
      λ (a, b, absent). elim (Bool-cases (investigated ledger (h, c))) [
        | inl known ↦ absurd (absent ((investigated-OnRecord ledger h c).0 known))
        | inr unknown ↦
            mem-select open_pair (pairs hosts caps)
              (mem-pairs hosts caps (mem-sort_by le (λ x. x) (hosts_or_all host_ids) a) b)
              (ap not unknown)
      ],
    )

-- After record_investigation, missing_investigations reports the pairs that it reported before but
-- for the one recorded.
missing-record_investigation :
    (le : String → String → Bool) (host_ids capabilities : Option (List String))
    (ledger : List LedgerEntry) (today host capability how_found note h c : String)
    → Memᴰ
        (h, c)
        (missing_investigations le host_ids capabilities
          (record_investigation today host capability how_found note ledger).1)
      ↔ (Memᴰ (h, c) (missing_investigations le host_ids capabilities ledger)
          × (¬ ((h ≡ host) × (c ≡ capability))))
unfolding record_investigation
missing-record_investigation le host_ids capabilities ledger today host capability how_found note h
      c =
    let row : LedgerEntry = record {
      host = host;
      capability = capability;
      date = today;
      how_found = how_found;
      note = note;
    } in
    let before = missing_investigations_iff le host_ids capabilities ledger h c in
    let after = missing_investigations_iff le host_ids capabilities (ledger ++ row ∷ []) h c in
    (
      λ m.
          let (a, b, absent) = after.0 m in
          (
            before.1 (
              a,
              b,
              λ r. absent (record {
                entry = r.entry;
                listed = Memᴰ.append_left (row ∷ []) r.listed;
                about_host = r.about_host;
                about_capability = r.about_capability;
              }),
            ),
            λ (x, y). absent (record {
              entry = row;
              listed = Memᴰ.append_right ledger (Memᴰ.head refl);
              about_host = sym x;
              about_capability = sym y;
            }),
          ),
      λ (m, other).
          let (a, b, absent) = before.0 m in
          after.1 (
            a,
            b,
            λ r. elim (Memᴰ.append_cases ledger r.listed) [
              | inl i ↦ absent (record {
                entry = r.entry;
                listed = i;
                about_host = r.about_host;
                about_capability = r.about_capability;
              })
              | inr i ↦
                  let e = Memᴰ.eq_of_singleton i in
                  other (
                    sym r.about_host ∙ ap (λ (x : LedgerEntry). x.host) e,
                    sym r.about_capability ∙ ap (λ (x : LedgerEntry). x.capability) e,
                  )
            ],
          ),
    )
