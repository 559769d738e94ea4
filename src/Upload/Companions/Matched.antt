-- ===== src/Upload/Companions/Matched.antt =====
-- What the companions that `audit_elf_native` of tool/upload_sentry_symbols.py gives are to the
-- distributed modules.
use xfl_clash.Prelude.{
  Bool, true, false, not, ◌||◌, Option, none, some, List, [], ◌∷◌, ◌++◌, ◌≡◌, refl, sym, ap, ◌∙◌,
  inl, inr, map, all, Text, codes, ◌==ₜ◌, ==ₜ_sound, Result, ok, for_each, All, In, Returns,
  Returns-guard, Returns-bind, Ensures-bind, Ensures-for_each, or_false, not-false,
}
use mathlib.Core.Path.{subst}
use xfl_clash.Binary.{Bytes}
use xfl_clash.Elf.{Elf, inspect_elf}
use xfl_clash.Upload.Error.{
  SymbolError, wrong_binary_name, unexpected_manifest, no_companions, no_required,
  missing_companion, missing_mandatory, no_separate_companion,
}
use xfl_clash.Upload.Check.{
  Files, native_path, safe_label, fingerprint, Info, Checked, check_symbol,
}
use xfl_clash.Upload.Companions.{
  Item, dictionary, not_dictionary, Entry, Required, Manifest, Identity, Evidence, SafeLimitation,
  Seen, nothing_seen, architecture_of, is_in, new_architecture, readable, compare, compare_checked,
  static_targets, has_static, add_required, copies_of, check_pair, non_empty, a_list,
  add_limitation, audit_entry, audit_elf_native,
}
use xfl_clash.Upload.Companions.Parts.{
  IsCompanion, compare-IsCompanion, is_in-In, identity_of, readable-ok, wanted_is, all-In, map-snoc,
  IsNamed, Adds, IsNamed-more, add_all-Adds,
}

module _ (sha256 : Bytes → Text) (files : Files) (android : Bool) where
  -- A companion that is uploaded, with its evidence.
  pub record IsShown (artifact : Text) (e : Evidence) : Type 0 where
    pub binary : Text
    pub wanted : Text
    pub binary_elf : Elf
    pub debug_elf : Elf
    pub wanted_of : architecture_of android e.architecture ≡ some wanted
    pub named : files.name binary ≡ e.target
    pub suffix : files.suffix artifact ≡ codes ".debug"
    pub separate : (files.resolved binary ==ₜ files.resolved artifact) ≡ false
    pub read_binary : inspect_elf sha256 (files.content binary) ≡ ok binary_elf
    pub read_debug : inspect_elf sha256 (files.content artifact) ≡ ok debug_elf
    pub companion : IsCompanion wanted binary_elf debug_elf
    pub build_id : e.build_id ≡ binary_elf.build_id
    pub binary_print : e.binary ≡ fingerprint sha256 files binary
    pub symbols_print : e.symbols ≡ fingerprint sha256 files artifact

  abbrev pub AreShown : List Text → List Evidence → Type 0
  AreShown [] [] = Unit
  AreShown [] (e ∷ es) = ⊥
  AreShown (a ∷ artifacts) [] = ⊥
  AreShown (a ∷ artifacts) (e ∷ es) = IsShown a e × AreShown artifacts es

  AreShown-snoc :
      (artifacts : List Text) (evidence : List Evidence) (a : Text) (e : Evidence)
      → AreShown artifacts evidence
      → IsShown a e
      → AreShown (artifacts ++ a ∷ []) (evidence ++ e ∷ [])
  AreShown-snoc [] [] a e h s = (s, tt)
  AreShown-snoc [] (f ∷ es) a e h s = elim h [ ]
  AreShown-snoc (b ∷ artifacts) [] a e h s = elim h [ ]
  AreShown-snoc (b ∷ artifacts) (f ∷ es) a e (k, h) s = (k, AreShown-snoc artifacts es a e h s)

  -- What holds of the collected entries.
  record IsCollected (s : Seen) : Type 0 where
    shown : AreShown s.artifacts s.evidence
    identities : s.seen ≡ map identity_of s.evidence

  -- What a pair of files that was accepted shows.
  record IsPair (target wanted binary debug_file : Text) (result : Elf × Checked) : Type 0 where
    debug_elf : Elf
    named : files.name binary ≡ target
    suffix : files.suffix debug_file ≡ codes ".debug"
    separate : (files.resolved binary ==ₜ files.resolved debug_file) ≡ false
    read_binary : inspect_elf sha256 (files.content binary) ≡ ok result.0
    read_debug : inspect_elf sha256 (files.content debug_file) ≡ ok debug_elf
    companion : IsCompanion wanted result.0 debug_elf

  module _ (cli : Text → Result SymbolError Info) where
    check_pair-IsPair :
        (target wanted binary debug_file : Text)
        → Returns
            (IsPair target wanted binary debug_file)
            (check_pair sha256 files cli android target wanted binary debug_file)
    unfolding check_pair
    check_pair-IsPair target wanted binary debug_file =
        let P = IsPair target wanted binary debug_file in
        Returns-guard P (not (files.name binary ==ₜ target)) wrong_binary_name _ λ h1.
          Returns-guard P
            (not (files.suffix debug_file ==ₜ codes ".debug")
              || files.resolved binary ==ₜ files.resolved debug_file)
            no_separate_companion _
            λ h2. Returns-bind P (readable (inspect_elf sha256 (files.content binary))) _ λ b hb.
              Returns-bind P (readable (inspect_elf sha256 (files.content debug_file))) _ λ d hd.
                Ensures-bind (λ _. Unit) P (λ _. IsCompanion wanted b d) (compare wanted b d) _
                  (compare-IsCompanion wanted b d)
                  λ _ _ matched.
                    Returns-bind P (check_symbol files cli binary (codes "elf") false) _
                      λ binary_info _.
                        Returns-bind P (check_symbol files cli debug_file (codes "elf") true) _
                          λ debug_info _.
                            Returns-bind P (compare_checked binary_info debug_info) _ λ _ _.
                              (let (h3, h4) =
                                  or_false (not (files.suffix debug_file ==ₜ codes ".debug"))
                                    (files.resolved binary ==ₜ files.resolved debug_file) h2 in
                                record {
                                  debug_elf = d;
                                  named =
                                      ==ₜ_sound (files.name binary) target
                                        (not-false (files.name binary ==ₜ target) h1);
                                  suffix =
                                      ==ₜ_sound (files.suffix debug_file) (codes ".debug")
                                        (not-false (files.suffix debug_file ==ₜ codes ".debug") h3);
                                  separate = h4;
                                  read_binary =
                                      readable-ok (inspect_elf sha256 (files.content binary)) b hb;
                                  read_debug =
                                      readable-ok (inspect_elf sha256 (files.content debug_file)) d
                                        hd;
                                  companion = matched;
                                })

    audit_entry-IsCollected :
        (s : Seen) (item : Item Entry)
        → IsCollected s
        → Returns IsCollected (audit_entry sha256 files cli android s item)
    unfolding audit_entry
    audit_entry-IsCollected s not_dictionary c = tt
    audit_entry-IsCollected s (dictionary entry) c =
        Returns-bind IsCollected (safe_label entry.target) _ λ target _.
          Returns-bind IsCollected (safe_label entry.architecture) _ λ architecture _.
            Returns-bind IsCollected (safe_label entry.source) _ λ source _.
              Returns-bind IsCollected
                (new_architecture (is_in (target, architecture) s.seen)
                  (architecture_of android architecture))
                _
                λ wanted hw. Returns-bind IsCollected (native_path files entry.binary) _ λ binary _.
                  Returns-bind IsCollected (native_path files entry.debug_file) _ λ debug_file _.
                    Ensures-bind (λ _. Unit) IsCollected (IsPair target wanted binary debug_file)
                      (check_pair sha256 files cli android target wanted binary debug_file) _
                      (check_pair-IsPair target wanted binary debug_file)
                      λ pair _ shows.
                        Returns-bind IsCollected
                          (copies_of sha256 files cli android entry.binary_copies) _
                          λ copied _. record {
                            shown =
                                AreShown-snoc s.artifacts s.evidence debug_file _ c.shown (record {
                                  binary = binary;
                                  wanted = wanted;
                                  binary_elf = pair.0;
                                  debug_elf = shows.debug_elf;
                                  wanted_of =
                                      wanted_is (is_in (target, architecture) s.seen)
                                        (architecture_of android architecture) wanted hw;
                                  named = shows.named;
                                  suffix = shows.suffix;
                                  separate = shows.separate;
                                  read_binary = shows.read_binary;
                                  read_debug = shows.read_debug;
                                  companion = shows.companion;
                                  build_id = refl;
                                  binary_print = refl;
                                  symbols_print = refl;
                                });
                            identities =
                                ap (λ x. x ++ (target, architecture) ∷ []) c.identities
                                ∙ sym (map-snoc identity_of s.evidence _);
                          }

  abbrev pub items_of : {A : Type 0} → Option (List A) → List A
  items_of none = []
  items_of (some xs) = xs

  -- What `audit_elf_native` gives for a manifest.
  pub record IsUpload (manifest : Manifest)
      (result : List Text × List Evidence × List SafeLimitation) : Type 0 where
    pub shown : AreShown result.0 result.1
    pub required : All (IsNamed (map identity_of result.1)) (items_of manifest.required)
    pub static :
        (e : Evidence) (t : Text)
        → In e result.1
        → In t (static_targets android)
        → In (t, e.architecture) (map identity_of result.1)

  In-map : (e : Evidence) (es : List Evidence) → In e es → In (identity_of e) (map identity_of es)
  In-map e [] i = elim i [ ]
  In-map e (f ∷ es) (inl h) = inl (ap identity_of h)
  In-map e (f ∷ es) (inr i) = inr (In-map e es i)

  static-In :
      (required seen : List Identity) (e : Evidence) (t : Text)
      → all (λ r. is_in r seen) required ≡ true
      → all (has_static android required) seen ≡ true
      → In (identity_of e) seen
      → In t (static_targets android)
      → In (t, e.architecture) seen
  static-In required seen e t h k i j =
      let all_static : has_static android required (identity_of e) ≡ true =
        all-In (has_static android required) seen (identity_of e) k i in
      let named : is_in (t, e.architecture) required ≡ true =
        all-In (λ s. is_in (s, e.architecture) required) (static_targets android) t all_static j in
      is_in-In (t, e.architecture) seen
        (all-In (λ r. is_in r seen) required (t, e.architecture) h
          (is_in-In (t, e.architecture) required named))

  required_all :
      (required seen : List Identity) (items : List (Item Required))
      → all (λ r. is_in r seen) required ≡ true
      → All (IsNamed required) items
      → All (IsNamed seen) items
  required_all required seen [] h n = tt
  required_all required seen (item ∷ items) h (n, ns) = (
    IsNamed-more required seen item
        (λ i j. is_in-In i seen (all-In (λ r. is_in r seen) required i h j)) n,
    required_all required seen items h ns,
  )

  non_empty-items :
      {A : Type 0} (e : SymbolError) (o : Option (List A)) (xs : List A)
      → non_empty e o ≡ ok xs
      → items_of o ≡ xs
  non_empty-items e none xs h = cc
  non_empty-items e (some []) xs h = cc
  non_empty-items e (some (x ∷ ys)) xs h = cc

  -- Each debug companion that audit_elf_native gives is a separate .debug file without executable
  -- text and with line information, whose build identifier, not empty, and architecture are those of
  -- the distributed binary that has the name of its target; its evidence has their identifier and
  -- fingerprints. Every module that the manifest requires, and on every architecture each mandatory
  -- one, has a companion.
  pub audit_elf_native-IsUpload :
      (cli : Text → Result SymbolError Info)
      (inventory : List (Item Entry) → List Identity → Result SymbolError (Unit {0}))
      (manifest : Manifest)
      → Returns (IsUpload manifest) (audit_elf_native sha256 files cli android inventory manifest)
  unfolding audit_elf_native
  audit_elf_native-IsUpload cli inventory manifest =
      let P = IsUpload manifest in
      Returns-guard P (not manifest.has_schema || not manifest.is_for_platform) unexpected_manifest
        _
        λ _. Returns-bind P (non_empty no_companions manifest.artifacts) _ λ entries _.
          Returns-bind P (a_list manifest.limitations) _ λ limitations _.
            Returns-bind P (non_empty no_required manifest.required) _ λ items hi.
              Ensures-bind (λ _. Unit) P IsCollected
                (for_each (audit_entry sha256 files cli android) nothing_seen entries) _
                (Ensures-for_each (λ _. Unit) IsCollected (audit_entry sha256 files cli android)
                  nothing_seen entries (record { shown = tt; identities = refl })
                  (λ s item c. audit_entry-IsCollected cli s item c))
                λ seen _ c.
                  Ensures-bind (λ _. Unit) P (Adds [] items)
                    (for_each (add_required android) [] items) _ (add_all-Adds android [] items)
                    λ required _ added.
                      Returns-guard P (not (all (λ r. is_in r seen.seen) required))
                        missing_companion _
                        λ h1.
                          Returns-guard P (not (all (has_static android required) seen.seen))
                            missing_mandatory _
                            λ h2. Returns-bind P (inventory entries required) _ λ _ _.
                              Returns-bind P
                                (for_each (add_limitation android required) [] limitations) _
                                λ safe _.
                                  (let k1 = not-false (all (λ r. is_in r seen.seen) required) h1 in
                                    let k2 =
                                      not-false (all (has_static android required) seen.seen) h2 in
                                    record {
                                      shown = c.shown;
                                      required =
                                          subst
                                            (λ x. All (IsNamed (map identity_of seen.evidence)) x)
                                            (sym (
                                              non_empty-items no_required manifest.required items
                                                hi))
                                            (subst (λ x. All (IsNamed x) items) c.identities
                                              (required_all required seen.seen items k1
                                                added.named));
                                      static = λ e t i j.
                                          subst (λ x. In (t, e.architecture) x) c.identities
                                            (static-In required seen.seen e t k1 k2
                                              (subst (λ x. In (identity_of e) x) (sym c.identities)
                                                (In-map e seen.evidence i))
                                              j);
                                    })
