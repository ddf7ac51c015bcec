-- ===== src/Dns/Wildcards.antt =====
-- `upstreamsFor`: the longest suffix decides.
use auto_pxe.Prelude.{
  ◌≤◌, ◌≡◌, refl, sym, Bool, true, false, Option, List, [], ◌∷◌, arith, Text, length, if◌then◌else◌,
  inl, inr, ◌⊎◌, map, ◌++◌, ap, ◌∙◌, to_lower, trim, is_empty,
}
use mathlib.Core.List.Memᴰ
use mathlib.Core.Path.{subst}
use mathlib.Core.List.{Memᴰ}
use auto_pxe.Config.{Config, Dns, Wildcard}
use auto_pxe.Dns.Sorting.{IsSort, IsDescending, descending, comes_before-IsWeakOrder}
use auto_pxe.Dns.Zones.{
  IsUnder, trim-IsTrimmed, entry_matches-IsUnder, IsUnder-entry_matches, length-append_dot,
}
use auto_pxe.Dns.{
  WildcardEntry, entry_matches, first_match, upstreams_for, wildcard_entries, new_server,
  ensure_port, Sort, comes_before,
}

-- The entry is of the list, matches, and no matching one has a longer suffix.
record IsLongestEntry (qname : Text) (ws : List WildcardEntry) (w : WildcardEntry) : Type 0 where
  pub listed : Memᴰ w ws
  pub matching : entry_matches qname w ≡ true
  pub longest :
      (x : WildcardEntry)
      → Memᴰ x ws
      → entry_matches qname x ≡ true
      → length x.suffix ≤ length w.suffix

-- The upstream servers are those of a longest matching entry, or, if none matches, the default ones.
abbrev IsEntryChoice : Text → List WildcardEntry → List Text → List Text → Type 0
IsEntryChoice qname ws default us =
    ((w : WildcardEntry) × IsLongestEntry qname ws w × (us ≡ w.upstream))
    ⊎ (((x : WildcardEntry) → Memᴰ x ws → entry_matches qname x ≡ false) × (us ≡ default))

pub member_cases :
    {P : WildcardEntry → Type 0} (w : WildcardEntry) (ws : List WildcardEntry)
    → P w
    → ((x : WildcardEntry) → Memᴰ x ws → P x)
    → (x : WildcardEntry) → Memᴰ x (w ∷ ws)
    → P x
member_cases {P} w ws h t x m = elim (Memᴰ.cases_cons m) [
  | inl e ↦ subst P (sym e) h
  | inr at ↦ t x at
]

IsEntryChoice-skip :
    (qname : Text) (w : WildcardEntry) (ws : List WildcardEntry) (default us : List Text)
    → entry_matches qname w ≡ false
    → IsEntryChoice qname ws default us
    → IsEntryChoice qname (w ∷ ws) default us
IsEntryChoice-skip qname w ws default us miss (inl (x, at, same)) = inl (
  x,
  record {
    listed = Memᴰ.tail at.listed;
    matching = at.matching;
    longest = member_cases w ws (λ hit. ground arith) at.longest;
  },
  same,
)
IsEntryChoice-skip qname w ws default us miss (inr (others, same)) =
    inr (member_cases w ws miss others, same)

first_match-IsEntryChoice :
    (qname : Text) (ws : List WildcardEntry) (default : List Text)
    → IsDescending ws
    → IsEntryChoice qname ws default (first_match qname ws default)
unfolding first_match
first_match-IsEntryChoice qname [] default d = inr ((λ x m. absurd (Memᴰ.not-nil m)), refl)
first_match-IsEntryChoice qname (w ∷ ws) default (top, d) =
    go (entry_matches qname w) refl (first_match-IsEntryChoice qname ws default d)
  where
    go :
        (b : Bool)
        → entry_matches qname w ≡ b
        → IsEntryChoice qname ws default (first_match qname ws default)
        → IsEntryChoice qname
            (w ∷ ws)
            default
            (if b then w.upstream else first_match qname ws default)
    go true hit rec = inl (
      w,
      record {
        listed = Memᴰ.head refl;
        matching = hit;
        longest = member_cases w ws (λ e. omega arith) (λ x m e. top x m);
      },
      refl,
    )
    go false miss rec = IsEntryChoice-skip qname w ws default _ miss rec

-- The zone of a wildcard of the configuration.
abbrev pub zone : Wildcard → Text
zone w = to_lower (trim b'.' w.suffix)

abbrev pub Matches : Text → Wildcard → Type 0
Matches qname w = (is_empty (zone w) ≡ false) × IsUnder qname (zone w)

-- The wildcard is of the list and matches, and no matching one has a longer zone.
pub record IsLongest (qname : Text) (ws : List Wildcard) (w : Wildcard) : Type 0 where
  pub listed : Memᴰ w ws
  pub matching : Matches qname w
  pub longest : (x : Wildcard) → Memᴰ x ws → Matches qname x → length (zone x) ≤ length (zone w)

-- The upstream servers are those of a longest matching wildcard, or, if none matches, the default ones.
abbrev pub IsChoice : Text → Dns → List Text → Type 0
IsChoice qname dns us =
    ((w : Wildcard) × IsLongest qname dns.wildcards w × (us ≡ map ensure_port w.upstream))
    ⊎ (((w : Wildcard) → Memᴰ w dns.wildcards → ¬ Matches qname w)
        × (us ≡ map ensure_port dns.upstream))

abbrev entry : Wildcard → WildcardEntry
entry w = record { suffix = b'.' ∷ (zone w ++ b'.' ∷ []); upstream = map ensure_port w.upstream }

-- An entry is one of a wildcard with a zone.
abbrev IsEntryOf : List Wildcard → WildcardEntry → Type 0
IsEntryOf ws e = (w : Wildcard) × Memᴰ w ws × (is_empty (zone w) ≡ false) × (e ≡ entry w)

IsEntryOf-cons :
    (v : Wildcard) (ws : List Wildcard) (e : WildcardEntry) → IsEntryOf ws e → IsEntryOf (v ∷ ws) e
IsEntryOf-cons v ws e (w, at, named, same) = (w, Memᴰ.tail at, named, same)

wildcard_entries_sound :
    (ws : List Wildcard) (e : WildcardEntry) → Memᴰ e (wildcard_entries ws) → IsEntryOf ws e
unfolding wildcard_entries
wildcard_entries_sound [] e m = absurd (Memᴰ.not-nil m)
wildcard_entries_sound (w ∷ ws) e m = go (is_empty (zone w)) refl (wildcard_entries_sound ws e) m
  where
    go :
        (b : Bool)
        → is_empty (zone w) ≡ b
        → (Memᴰ e (wildcard_entries ws) → IsEntryOf ws e)
        → Memᴰ e (if b then wildcard_entries ws else entry w ∷ wildcard_entries ws)
        → IsEntryOf (w ∷ ws) e
    go true none_here rec m = IsEntryOf-cons w ws e (rec m)
    go false named rec m = elim (Memᴰ.cases_cons m) [
      | inl same ↦ (w, Memᴰ.head refl, named, same)
      | inr at ↦ IsEntryOf-cons w ws e (rec at)
    ]

wildcard_entries_complete :
    (ws : List Wildcard) (w : Wildcard)
    → Memᴰ w ws
    → is_empty (zone w) ≡ false
    → Memᴰ (entry w) (wildcard_entries ws)
unfolding wildcard_entries
wildcard_entries_complete [] w m named = absurd (Memᴰ.not-nil m)
wildcard_entries_complete (v ∷ ws) w m named =
    go (is_empty (zone v)) refl (wildcard_entries_complete ws w)
  where
    go :
        (b : Bool)
        → is_empty (zone v) ≡ b
        → (Memᴰ w ws → is_empty (zone w) ≡ false → Memᴰ (entry w) (wildcard_entries ws))
        → Memᴰ (entry w) (if b then wildcard_entries ws else entry v ∷ wildcard_entries ws)
    go b e rec = elim (Memᴰ.cases_cons m) [
      | inl same ↦ here b e same
      | inr at ↦ later b (rec at named)
    ]
      where
        here :
            (b : Bool)
            → is_empty (zone v) ≡ b
            → w ≡ v
            → Memᴰ (entry w) (if b then wildcard_entries ws else entry v ∷ wildcard_entries ws)
        here true gone same =
            absurd (cc (sym gone ∙ ap (λ x. is_empty (zone x)) (sym same) ∙ named))
        here false some_zone same = Memᴰ.head (ap entry same)

        later :
            (b : Bool)
            → Memᴰ (entry w) (wildcard_entries ws)
            → Memᴰ (entry w) (if b then wildcard_entries ws else entry v ∷ wildcard_entries ws)
        later true at = at
        later false at = Memᴰ.tail at

-- For a server set up from a configuration, with a sorting that sorts by the comparison it is given: the
-- upstream servers of a name are those of a configured wildcard whose zone, its suffix in small letters
-- without the dots at its ends, is not empty and is the name, with or without its final dot, or a part of
-- the name after a dot, up to the final dot, and is the longest of the zones for which this holds; they
-- are the default ones when it holds for none.
pub upstreams_for-IsChoice :
    (reverse_addr : Text → Option Text) (sort : Sort) (cfg : Config) (qname : Text)
    → IsSort sort
    → IsChoice qname cfg.dns (upstreams_for qname (new_server reverse_addr sort cfg))
unfolding upstreams_for new_server
upstreams_for-IsChoice reverse_addr sort cfg qname sorted = go (
    first_match-IsEntryChoice qname (sort comes_before es) default
      (descending _ (sorted.ordered comes_before es comes_before-IsWeakOrder)))
  where
    ws : List Wildcard
    ws = cfg.dns.wildcards

    es : List WildcardEntry
    es = wildcard_entries ws

    default : List Text
    default = map ensure_port cfg.dns.upstream

    in_order : (x : Wildcard) → Memᴰ x ws → Matches qname x → Memᴰ (entry x) (sort comes_before es)
    in_order x at (named, under) =
        sorted.complete comes_before es (entry x) (wildcard_entries_complete ws x at named)

    hits : (x : Wildcard) → Matches qname x → entry_matches qname (entry x) ≡ true
    hits x (named, under) =
        IsUnder-entry_matches qname (zone x) (map ensure_port x.upstream) named
          (trim-IsTrimmed x.suffix) under

    chosen :
        (e : WildcardEntry) (us : List Text)
        → IsLongestEntry qname (sort comes_before es) e
        → us ≡ e.upstream
        → IsEntryOf ws e
        → IsChoice qname cfg.dns us
    chosen e us at same (w, listed, named, is_entry) = inl (
      w,
      record {
        listed = listed;
        matching = (
          named,
          entry_matches-IsUnder qname (zone w) (map ensure_port w.upstream) named
              (trim-IsTrimmed w.suffix) (ap (entry_matches qname) (sym is_entry) ∙ at.matching),
        );
        longest = λ x here m.
            let le = at.longest (entry x) (in_order x here m) (hits x m) in
            let long : length e.suffix ≡ length (entry w).suffix =
              ap (λ v. length v.suffix) is_entry in
            omega (arith, le, long, length-append_dot (zone x), length-append_dot (zone w));
      },
      same ∙ ap (λ v. v.upstream) is_entry,
    )

    go :
        {us : List Text}
        → IsEntryChoice qname (sort comes_before es) default us
        → IsChoice qname cfg.dns us
    go {us} (inl (e, at, same)) =
        chosen e us at same (wildcard_entries_sound ws e (sorted.sound comes_before es e at.listed))
    go (inr (others, same)) =
        inr ((λ x here m. cc (sym (others (entry x) (in_order x here m)) ∙ hits x m)), same)
