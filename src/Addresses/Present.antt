-- ===== src/Addresses/Present.antt =====
-- What `AddressManager::apply` of src/gruezi/addresses.rs does to the addresses of the interface.
use gruezi.Base.{
  ◌≡◌, ◌≢◌, refl, sym, ap, ◌∙◌, subst, true, false, Bool-cases, ◌⊎◌, inl, inr, Option, none, some,
  List, [], ◌∷◌, All,
}
use gruezi.Base.Result.{Result, ok, err}
use gruezi.Addresses.{
  AddressManager, AddressAction, add, remove, AddressError, empty_command, command_failed,
  ip_subcommand, is_ignorable_ip_error, ip_call, address_result, on_ok, run_address_command,
  run_announcement_command, announce_ip, announce_address, announce_added, before_slash, apply_all,
  apply,
}
use gruezi.Base.Word.{Bytes}
use gruezi.Hooks.{Command, Exit, not_run, exited}
use gruezi.Net.{IpAddr, v4, v6}
use gruezi.Text.{Text, codes, contains, is_blank}

module _ {W : Type 0} where
  on_ok-first :
      (p : Result AddressError (Unit {0}) × W) (next : W → Result AddressError (Unit {0}) × W)
      → (on_ok p next).0 ≡ ok tt
      → p.0 ≡ ok tt
  on_ok-first (ok tt, w) next h = refl
  on_ok-first (err e, w) next h = absurd (cc h)

  on_ok-next :
      (p : Result AddressError (Unit {0}) × W) (next : W → Result AddressError (Unit {0}) × W)
      → p.0 ≡ ok tt
      → on_ok p next ≡ next p.1
  on_ok-next (ok tt, w) next h = refl
  on_ok-next (err e, w) next h = absurd (cc h)

  -- What holds after the first step and is kept by the next holds after both.
  on_ok-keeps :
      (P : W → Type 0) (p : Result AddressError (Unit {0}) × W)
      (next : W → Result AddressError (Unit {0}) × W)
      → P p.1
      → ((w : W) → P w → P (next w).1)
      → P (on_ok p next).1
  on_ok-keeps P (ok u, w) next h k = k w h
  on_ok-keeps P (err e, w) next h k = h

module _ {W : Type 0} (exec : Command → W → Exit × W) (parse_ip : Text → Option IpAddr)
    (m : AddressManager) (P : W → Type 0)
    (others : (c : Command) (w : W) → c.program ≢ m.ip_command → P w → P (exec c w).1)
    (arping : m.arping_command ≢ m.ip_command) (ndsend : m.ndsend_command ≢ m.ip_command) where
  run_announcement-keeps :
      (program : Text) (args : List Text) (w : W)
      → program ≢ m.ip_command
      → P w
      → P (run_announcement_command exec parse_ip program args w).1
  unfolding run_announcement_command
  run_announcement-keeps program args w ne h = elim (Bool-cases (is_blank program)) [
    | inl e ↦ rw e h
    | inr e ↦ rw e (others _ w ne h)
  ]

  announce_ip-keeps :
      (a : Text) (ip : Option IpAddr) (w : W) → P w → P (announce_ip exec parse_ip m a ip w).1
  unfolding announce_ip
  announce_ip-keeps a none w h = h
  announce_ip-keeps a (some (v4 b c d e)) w h = run_announcement-keeps m.arping_command _ w arping h
  announce_ip-keeps a (some (v6 s)) w h = run_announcement-keeps m.ndsend_command _ w ndsend h

  announce_added-keeps :
      (action : AddressAction) (a : Text) (w : W)
      → P w
      → P (announce_added exec parse_ip m action a w)
  unfolding announce_added announce_address
  announce_added-keeps add a w h = announce_ip-keeps a (parse_ip (before_slash a)) w h
  announce_added-keeps remove a w h = h

  module _ (action : AddressAction) where
    -- The property is kept by `ip` as well, for every address.
    run_address-keeps :
        ((a : Text) (w : W) → P w → P (exec (ip_call m a action) w).1)
        → (a : Text) (w : W) → P w
        → P (run_address_command exec parse_ip m a action w).1
    unfolding run_address_command
    run_address-keeps keeps a w h = elim (Bool-cases (is_blank m.ip_command)) [
      | inl e ↦ rw e h
      | inr e ↦ rw e (keeps a w h)
    ]

    apply_all-keeps :
        ((a : Text) (w : W) → P w → P (exec (ip_call m a action) w).1)
        → (rest : List Text) (w : W) → P w
        → P (apply_all exec parse_ip m action rest w).1
    unfolding apply_all
    apply_all-keeps keeps [] w h = h
    apply_all-keeps keeps (a ∷ rest) w h =
        on_ok-keeps P (run_address_command exec parse_ip m a action w) _
          (run_address-keeps keeps a w h)
          (λ w' h'. apply_all-keeps keeps rest _ (announce_added-keeps action a w' h'))

module _ {W : Type 0} (exec : Command → W → Exit × W) (parse_ip : Text → Option IpAddr)
    (m : AddressManager) (action : AddressAction) (Reached : Text → W → Type 0)
    (reaches : (a : Text) (w : W)
      → address_result a action (exec (ip_call m a action) w).0 ≡ ok tt
      → Reached a (exec (ip_call m a action) w).1)
    (keeps : (a b : Text) (w : W) → Reached b w → Reached b (exec (ip_call m a action) w).1)
    (others : (b : Text) (c : Command) (w : W)
      → c.program ≢ m.ip_command
      → Reached b w
      → Reached b (exec c w).1)
    (arping : m.arping_command ≢ m.ip_command) (ndsend : m.ndsend_command ≢ m.ip_command) where
  run_address-reaches :
      (a : Text) (w : W)
      → (run_address_command exec parse_ip m a action w).0 ≡ ok tt
      → Reached a (run_address_command exec parse_ip m a action w).1
  unfolding run_address_command
  run_address-reaches a w h = elim (Bool-cases (is_blank m.ip_command)) [
    | inl e ↦ absurd (failed (rw e at h))
    | inr e ↦ rw e (reaches a w (rw e at h))
  ]
    where
      failed : ◌≡◌ {A = Result AddressError (Unit {0})} (err empty_command) (ok tt) → ⊥
      failed x = cc x

  apply_all-reaches :
      (as' : List Text) (w : W)
      → (apply_all exec parse_ip m action as' w).0 ≡ ok tt
      → All (λ a. Reached a (apply_all exec parse_ip m action as' w).1) as'
  unfolding apply_all
  apply_all-reaches [] w h = tt
  apply_all-reaches (a ∷ rest) w h =
      let first = run_address_command exec parse_ip m a action w in
      let done = on_ok-first first _ h in
      let same =
        on_ok-next first
          (λ w'. apply_all exec parse_ip m action rest (announce_added exec parse_ip m action a w'))
          done in
      subst (λ p. Reached a p.1 × All (λ b. Reached b p.1) rest) (sym same)
        (
          apply_all-keeps exec parse_ip m (Reached a) (others a) arping ndsend action
              (λ b. keeps b a) rest _
              (announce_added-keeps exec parse_ip m (Reached a) (others a) arping ndsend action a
                first.1 (run_address-reaches a w done)),
          apply_all-reaches rest _ (ap (λ p. p.0) (sym same) ∙ h),
        )

  apply-Reached :
      (w : W)
      → (apply exec parse_ip m action w).0 ≡ ok tt
      → All (λ a. Reached a (apply exec parse_ip m action w).1) m.addresses
  unfolding apply
  apply-Reached w h = apply_all-reaches m.addresses w h

-- The line `ip address add ADDRESS dev INTERFACE`, or one with another verb.
abbrev pub ip_line : AddressManager → Text → Text → Command
ip_line m verb a = record {
  program = m.ip_command;
  args = codes "address" ∷ verb ∷ a ∷ codes "dev" ∷ m.interface ∷ [];
  env = [];
}

module _ {W : Type 0} (exec : Command → W → Exit × W) (m : AddressManager)
    (Present Absent : Text → W → Type 0) where
  -- What `ip` and the other commands do, for addresses that are present on the interface or
  -- absent from it.
  pub record IsIp : Type 0 where
    pub added :
        (a : Text) (w : W) (stderr : Bytes)
        → (exec (ip_line m (codes "add") a) w).0 ≡ exited true stderr
        → Present a (exec (ip_line m (codes "add") a) w).1
    pub there_before :
        (a : Text) (w : W) (stderr : Bytes)
        → (exec (ip_line m (codes "add") a) w).0 ≡ exited false stderr
        → contains stderr (codes "File exists") ≡ true
        → Present a (exec (ip_line m (codes "add") a) w).1
    pub deleted :
        (a : Text) (w : W) (stderr : Bytes)
        → (exec (ip_line m (codes "del") a) w).0 ≡ exited true stderr
        → Absent a (exec (ip_line m (codes "del") a) w).1
    pub gone_before :
        (a : Text) (w : W) (stderr : Bytes)
        → (exec (ip_line m (codes "del") a) w).0 ≡ exited false stderr
        → contains stderr (codes "Cannot assign requested address") ≡ true
        → Absent a (exec (ip_line m (codes "del") a) w).1
    pub add_keeps :
        (a b : Text) (w : W) → Present b w → Present b (exec (ip_line m (codes "add") a) w).1
    pub del_keeps :
        (a b : Text) (w : W) → Absent b w → Absent b (exec (ip_line m (codes "del") a) w).1
    pub others_keep :
        (b : Text) (c : Command) (w : W)
        → c.program ≢ m.ip_command
        → (Present b w → Present b (exec c w).1) × (Absent b w → Absent b (exec c w).1)

  -- What a result that counts as a success says of the exit.
  succeeded :
      (a : Text) (action : AddressAction) (e : Exit)
      → address_result a action e ≡ ok tt
      → (stderr : Bytes) × ((e ≡ exited true stderr)
          ⊎ ((e ≡ exited false stderr) × (is_ignorable_ip_error action stderr ≡ true)))
  unfolding address_result
  succeeded a action not_run h = absurd (cc h)
  succeeded a action (exited true stderr) h = (stderr, inl refl)
  succeeded a action (exited false stderr) h =
      elim (Bool-cases (is_ignorable_ip_error action stderr)) [
        | inl e ↦ (stderr, inr (refl, e))
        | inr e ↦ absurd (not_ok (rw e at h))
      ]
    where
      not_ok : ◌≡◌ {A = Result AddressError (Unit {0})} (err (command_failed a stderr)) (ok tt) → ⊥
      not_ok x = cc x

  add_reaches :
      IsIp
      → (a : Text) (w : W) → address_result a add (exec (ip_call m a add) w).0 ≡ ok tt
      → Present a (exec (ip_call m a add) w).1
  unfolding ip_call ip_subcommand is_ignorable_ip_error
  add_reaches ip a w h = elim (succeeded a add _ h).1 [
    | inl e ↦ ip.added a w _ e
    | inr e ↦ ip.there_before a w _ e.0 e.1
  ]

  remove_reaches :
      IsIp
      → (a : Text) (w : W) → address_result a remove (exec (ip_call m a remove) w).0 ≡ ok tt
      → Absent a (exec (ip_call m a remove) w).1
  unfolding ip_call ip_subcommand is_ignorable_ip_error
  remove_reaches ip a w h = elim (succeeded a remove _ h).1 [
    | inl e ↦ ip.deleted a w _ e
    | inr e ↦ ip.gone_before a w _ e.0 e.1
  ]

  -- What an action wants of an address.
  abbrev pub Wanted : AddressAction → Text → W → Type 0
  Wanted add = Present
  Wanted remove = Absent

  -- Let the manager's command `ip`, called as `address add ADDRESS dev INTERFACE` with the
  -- manager's interface, leave the address present if it succeeds, or fails and prints `File
  -- exists`, and take no present address away; and, called as `address del ADDRESS dev
  -- INTERFACE`, leave it absent if it succeeds, or fails and prints `Cannot assign requested
  -- address`, and bring no absent address back. Let commands of other programs keep addresses
  -- present and absent as they are, where `arping` and `ndsend` are other programs. If `apply`
  -- succeeds, then at the end every address of the manager is present for an addition, and
  -- absent for a removal, whether its announcements fail or not.
  pub apply-reaches :
      (parse_ip : Text → Option IpAddr) (action : AddressAction) (w : W)
      → IsIp
      → m.arping_command ≢ m.ip_command
      → m.ndsend_command ≢ m.ip_command
      → (apply exec parse_ip m action w).0 ≡ ok tt
      → All (λ a. Wanted action a (apply exec parse_ip m action w).1) m.addresses
  apply-reaches parse_ip add w ip arping ndsend =
      apply-Reached exec parse_ip m add Present (add_reaches ip)
        (unfold ip_call ip_subcommand in ip.add_keeps) (λ b c w' ne. (ip.others_keep b c w' ne).0)
        arping ndsend w
  apply-reaches parse_ip remove w ip arping ndsend =
      apply-Reached exec parse_ip m remove Absent (remove_reaches ip)
        (unfold ip_call ip_subcommand in ip.del_keeps) (λ b c w' ne. (ip.others_keep b c w' ne).1)
        arping ndsend w
