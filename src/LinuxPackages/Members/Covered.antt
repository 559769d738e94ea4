-- ===== src/LinuxPackages/Members/Covered.antt =====
-- What a package holds that `verify_members` accepts, tool/verify_linux_packages.py.
use xfl_clash.Prelude.{
  ℕ, true, false, not, ◌&&◌, Option, none, some, List, [], ◌∷◌, ◌≡◌, ◌⊎◌, inl, inr, refl, Text,
  ◌==ₜ◌, ==ₜ_sound, any, all, drop, length, starts_with, is_one_of, ok, Ensures-bind, Ensures-ok,
  Ensures-mono, Returns, Returns-guard, Returns-bind, ◌∙◌, ◌==◌, All, In, Bool-cases, and_true,
  not-false,
}
use xfl_clash.Binary.{Bytes}
use xfl_clash.LinuxPackages.Error.{
  unexpected_packaged_native_module, duplicate_or_linked_native_module,
  packaged_native_bytes_changed, packaged_runner_not_executable, missing_packaged_launcher,
  invalid_packaged_launcher,
}
use xfl_clash.LinuxPackages.Cpio.{Member, Stream, finished, broken, yields, safe_name}
use xfl_clash.LinuxPackages.Members.{
  Expected, digest_of, mode_of, is_regular, is_executable, is_link, is_text, elf_magic, Seen,
  nothing_seen, see_launcher, launcher_step, see_module, module_step, see_member, has_launcher,
  conclude, verify_from, verify_members,
}

abbrev pub members_of : Stream → List Member
members_of finished = []
members_of (broken e) = []
members_of (yields m rest) = m ∷ members_of rest

module _ (sha256 : Bytes → Text) (utf8 : Bytes → Option Text) (prefix : Text) (expected : Expected)
    (launcher : Option (Text × Text)) where
  -- The member is a regular file with the digest of the module that stands at this path.
  pub record HasModule (relative : Text) (m : Member) : Type 0 where
    pub digest : Text
    pub mode : ℕ
    pub found : digest_of expected relative ≡ some digest
    pub same : sha256 m.content ≡ digest
    pub typed : mode_of m.mode ≡ ok mode
    pub regular : is_regular mode ≡ true

  -- The member is no native module.
  pub record IsData (m : Member) : Type 0 where
    pub mode : ℕ
    pub typed : mode_of m.mode ≡ ok mode
    pub other : (is_regular mode && starts_with m.content elf_magic) ≡ false

  pub record StandsAt (relative : Text) (m : Member) : Type 0 where
    pub name : Text
    pub safe : safe_name m.name ≡ ok name
    pub inside : starts_with name prefix ≡ true
    pub path : drop (length prefix) name ≡ relative

  -- A member of the bundle's directory is one of its modules, unchanged, or no native module.
  pub record IsClean (m : Member) : Type 0 where
    pub name : Text
    pub safe : safe_name m.name ≡ ok name
    pub inside :
        (starts_with name prefix ≡ false) ⊎ (HasModule (drop (length prefix) name) m ⊎ IsData m)

  -- A member of the list is this module.
  abbrev pub IsPackaged : List Member → Text → Type 0
  IsPackaged ms relative = (m : Member) × In m ms × StandsAt relative m × HasModule relative m

  see_launcher-modules :
      (link : Text) (m : Member) (seen : Seen)
      → Returns (λ s. s.modules ≡ seen.modules) (see_launcher sha256 utf8 link m seen)
  unfolding see_launcher
  see_launcher-modules link m seen =
      let P : Seen → Type 0 = λ s. s.modules ≡ seen.modules in
      Returns-guard P seen.launcher invalid_packaged_launcher _ λ _.
        Returns-bind P (mode_of m.mode) _ λ mode _.
          Returns-guard P (not (is_link mode)) invalid_packaged_launcher _ λ _.
            Returns-bind P (is_text (utf8 m.content) link) _
              λ same _. Returns-guard P (not same) invalid_packaged_launcher _ λ _. refl

  launcher_step-modules :
      (l : Option (Text × Text)) (name : Text) (m : Member) (seen : Seen)
      → Returns (λ s. s.modules ≡ seen.modules) (launcher_step sha256 utf8 l name m seen)
  unfolding launcher_step
  launcher_step-modules none name m seen = refl
  launcher_step-modules (some (path, link)) name m seen = elim (Bool-cases (name ==ₜ path)) [
    | inl e ↦ rw (e, launcher_step) (see_launcher-modules link m seen)
    | inr e ↦ rw (e, launcher_step) refl
  ]

  -- What is known once a member of the bundle's directory has been seen.
  pub record AfterModule (relative : Text) (m : Member) (seen s : Seen) : Type 0 where
    pub clean : HasModule relative m ⊎ IsData m
    pub modules :
        (s.modules ≡ seen.modules) ⊎ (HasModule relative m × (s.modules ≡ relative ∷ seen.modules))

  see_module-After :
      (o : Option Text) (relative : Text) (m : Member) (seen : Seen)
      → digest_of expected relative ≡ o
      → Returns (AfterModule relative m seen) (see_module sha256 utf8 o relative m seen)
  unfolding see_module
  see_module-After none relative m seen e =
      let P : Seen → Type 0 = AfterModule relative m seen in
      Returns-bind P (mode_of m.mode) _ λ mode typed.
        Returns-guard P (is_regular mode && starts_with m.content elf_magic)
          unexpected_packaged_native_module _
          λ other. record {
            clean = inr (record { mode = mode; typed = typed; other = other });
            modules = inl refl;
          }
  see_module-After (some digest) relative m seen e =
      let P : Seen → Type 0 = AfterModule relative m seen in
      Returns-guard P (is_one_of relative seen.modules) duplicate_or_linked_native_module _ λ _.
        Returns-bind P (mode_of m.mode) _ λ mode typed.
          Returns-guard P (not (is_regular mode)) duplicate_or_linked_native_module _ λ regular.
            Returns-guard P (not (sha256 m.content ==ₜ digest)) packaged_native_bytes_changed _
              λ same.
                Returns-guard P (not (any (λ c. c == b'/') relative) && not (is_executable mode))
                  packaged_runner_not_executable _
                  λ _.
                    (let held : HasModule relative m = record {
                      digest = digest;
                      mode = mode;
                      found = e;
                      same =
                          ==ₜ_sound (sha256 m.content) digest
                            (not-false (sha256 m.content ==ₜ digest) same);
                      typed = typed;
                      regular = not-false (is_regular mode) regular;
                    } in
                      record { clean = inl held; modules = inr (held, refl) })

  -- What is known once a member has been seen.
  pub record AfterMember (m : Member) (seen s : Seen) : Type 0 where
    pub clean : IsClean m
    pub modules :
        (s.modules ≡ seen.modules)
        ⊎ ((relative : Text) × StandsAt relative m
            × HasModule relative m
            × (s.modules ≡ relative ∷ seen.modules))

  module_step-After :
      (name : Text) (m : Member) (seen s : Seen)
      → safe_name m.name ≡ ok name
      → s.modules ≡ seen.modules
      → Returns (AfterMember m seen) (module_step sha256 utf8 prefix expected name m s)
  unfolding module_step
  module_step-After name m seen s safe same = elim (Bool-cases (starts_with name prefix)) [
    | inr out ↦
        rw (out, module_step)
          (record {
            clean = record { name = name; safe = safe; inside = inl out };
            modules = inl same;
          })
    | inl inside ↦
        rw (inside, module_step)
          (Ensures-mono (λ _. Unit) (AfterMember m seen)
            (AfterModule (drop (length prefix) name) m s)
            (see_module sha256 utf8 (digest_of expected (drop (length prefix) name))
              (drop (length prefix) name) m s)
            (λ s' k. record {
              clean = record { name = name; safe = safe; inside = inr k.clean };
              modules = elim k.modules [
                | inl kept ↦ inl (kept ∙ same)
                | inr (held, added) ↦ inr (
                  drop (length prefix) name,
                  record { name = name; safe = safe; inside = inside; path = refl },
                  held,
                  rw same at added,
                )
              ];
            })
            (see_module-After (digest_of expected (drop (length prefix) name))
              (drop (length prefix) name) m s refl))
  ]

  see_member-After :
      (m : Member) (seen : Seen)
      → Returns (AfterMember m seen) (see_member sha256 utf8 prefix expected launcher m seen)
  unfolding see_member
  see_member-After m seen = Returns-bind (AfterMember m seen) (safe_name m.name) _ λ name safe.
      Ensures-bind (λ _. Unit) (AfterMember m seen) (λ s. s.modules ≡ seen.modules)
        (launcher_step sha256 utf8 launcher name m seen) _
        (launcher_step-modules launcher name m seen)
        λ s _ same. module_step-After name m seen s safe same

  extended :
      (everything : List Member) (m : Member) (seen s : Seen)
      → In m everything
      → AfterMember m seen s
      → All (IsPackaged everything) seen.modules
      → All (IsPackaged everything) s.modules
  extended everything m seen s here a before = elim a.modules [
    | inl same ↦ rw same before
    | inr (relative, stands, held, added) ↦ rw added ((m, here, stands, held), before)
  ]

  packaged_of :
      (P : Text → Type 0) (name : Text) (names : List Text)
      → is_one_of name names ≡ true
      → All P names
      → P name
  unfolding is_one_of
  packaged_of P name [] h a = cc
  packaged_of P name (n ∷ ns) h (p, ps) = elim (Bool-cases (name ==ₜ n)) [
    | inl e ↦ rw (==ₜ_sound name n e) p
    | inr e ↦ packaged_of P name ns (rw e at h) ps
  ]

  all_packaged :
      (P : Text → Type 0) (modules : List Text) (es : Expected)
      → all (λ e. is_one_of e.0 modules) es ≡ true
      → All P modules
      → All (λ e. P e.0) es
  all_packaged P modules [] h a = tt
  all_packaged P modules (e ∷ es) h a =
      let (one, others) =
        and_true (is_one_of e.0 modules) (all (λ x. is_one_of x.0 modules) es) h in
      (packaged_of P e.0 modules one a, all_packaged P modules es others a)

  -- What a package holds, by its members.
  pub record Covers (everything rest : List Member) : Type 0 where
    pub complete : All (λ e. IsPackaged everything e.0) expected
    pub clean : All IsClean rest

  conclude-Covers :
      (everything : List Member) (seen : Seen)
      → All (IsPackaged everything) seen.modules
      → Returns (λ _. Covers everything []) (conclude sha256 utf8 expected launcher seen)
  unfolding conclude
  conclude-Covers everything seen a =
      let P : Unit {0} → Type 0 = λ _. Covers everything [] in
      Returns-guard P (not (has_launcher sha256 utf8 launcher seen)) missing_packaged_launcher _
        λ _. elim (Bool-cases (all (λ e. is_one_of e.0 seen.modules) expected)) [
          | inr missing ↦ rw missing tt
          | inl held ↦ rw held (record {
            complete = all_packaged (IsPackaged everything) seen.modules expected held a;
            clean = tt;
          })
        ]

  verify_from-Covers :
      (s : Stream) (seen : Seen) (everything : List Member)
      → ((m : Member) → In m (members_of s) → In m everything)
      → All (IsPackaged everything) seen.modules
      → Returns
          (λ _. Covers everything (members_of s))
          (verify_from sha256 utf8 prefix expected launcher s seen)
  unfolding verify_from
  verify_from-Covers finished seen everything sub a = conclude-Covers everything seen a
  verify_from-Covers (broken e) seen everything sub a = tt
  verify_from-Covers (yields m rest) seen everything sub a =
      let P : Unit {0} → Type 0 = λ _. Covers everything (m ∷ members_of rest) in
      Ensures-bind (λ _. Unit) P (AfterMember m seen)
        (see_member sha256 utf8 prefix expected launcher m seen) _ (see_member-After m seen)
        λ seen' _ after.
          Ensures-mono (λ _. Unit) P (λ _. Covers everything (members_of rest))
            (verify_from sha256 utf8 prefix expected launcher rest seen')
            (λ _ c. record { complete = c.complete; clean = (after.clean, c.clean) })
            (verify_from-Covers rest seen' everything (λ m' i. sub m' (inr i))
              (extended everything m seen seen' (sub m (inl refl)) after a))

  -- A package that verify_members accepts holds every module of the bundle, as a regular file under
  -- the prefix with the module's digest, and every other member under the prefix is no native
  -- module.
  pub verify_members-Covers :
      (members : Stream)
      → verify_members sha256 utf8 members prefix expected launcher ≡ ok tt
      → Covers (members_of members) (members_of members)
  unfolding verify_members
  verify_members-Covers members h =
      Ensures-ok (λ _. Unit) (λ _. Covers (members_of members) (members_of members))
        (verify_from sha256 utf8 prefix expected launcher members nothing_seen) tt h
        (verify_from-Covers members nothing_seen (members_of members) (λ m i. i) tt)
