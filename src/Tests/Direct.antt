-- ===== src/Tests/Direct.antt =====
-- The theorems about src/direct.c, applied.
use susanin.Prelude.{◌≡◌, refl, true, false, [], ◌∷◌, ◌++◌, Option, none, some}
use susanin.Prelude.Int.{ℤ, pos, is_neg}
use susanin.Prelude.Decimal.{is_empty}
use susanin.Prelude.{Bool, List, Bool-cases, inl, inr}
use susanin.Prelude.Text.{str_eq}
use susanin.Ros.Command.{is_done, is_trap, is_fatal}
use susanin.Tests.World.{word}
use susanin.Direct.Sync.Succeeds.{Answered, ends_here, goes_on, direct_sync-succeeds}
use susanin.Prelude.Text.{Text}
use susanin.Ros.Session.{Session}
use susanin.Ros.Session.Log.{SentOnly}
use susanin.Config.Options.{Settings}
use susanin.Config.Load.{defaults}
use susanin.Direct.Value.{ip, domain}
use susanin.Direct.Database.{Db, Disk, saved, rename_failed, is_reported}
use susanin.Direct.Database.Valid.{IsValid, db_load-IsValid}
use susanin.Direct.Database.RoundTrip.{db_load-db_text}
use susanin.Direct.Collect.Shown.{Removed, remove_matching-Removed}
use susanin.Direct.Sync.{listed_addresses}
use susanin.Direct.Sync.Effects.{IsDirect, SentOnly-direct_sync}
use susanin.Direct.Sync.Adds.{Adds}
use susanin.Direct.Sync.Exact.{wanted, direct_sync_good}
use susanin.Direct.Change.{Changed}
use susanin.Direct.Change.Laws.{Stored, Whole, Read}
use susanin.Direct.Change.Add.{added, direct_add_good}
use susanin.Direct.Change.Remove.{Dropped, direct_remove_good, changes-Whole}
use susanin.Tests.World.{agreeable, empty_router, bypassing, bypassed}
use susanin.Prelude.Text.{codes, c_string}
use susanin.Prelude.Decimal.{print_loop, decimal, skip_space, read_digits, strtoul}
use susanin.Prelude.Inet.{inet_pton, inet_ntop}
use susanin.Ros.Sentence.{is_reply}
use susanin.Ros.Command.{take_reply, drain}
use susanin.Ros.Session.{ros_command}
use susanin.Config.Load.{file_lines, trim_front, trim_back, trim}
use susanin.Direct.Value.{parse_kind, normalize_value}
use susanin.Direct.Database.{line_entry, db_load, db_text, db_save, db_find, remove_at}
use susanin.Direct.Collect.{id_collect_cb, first_auto_cb, remove_matching}
use susanin.Direct.Sync.{direct_sync}
use susanin.Direct.Change.{direct_add, direct_remove}

abbrev cfg : Settings
cfg = record defaults { table = codes "vpn" }

-- A name with upper case, an address with no prefix, and a line of no kind.
abbrev file : Text
file =
    codes "dns WWW.Example.ORG."
    ++ (10 ∷ (codes "ip 10.0.0.1" ++ (10 ∷ (codes "x y" ++ (10 ∷ [])))))

abbrev policy : Db
policy =
    record { kind = domain; value = codes "www.example.org" }
    ∷ record { kind = ip; value = codes "10.0.0.1/32" }
    ∷ []

file-loads : db_load (some file) ≡ some policy
unfolding c_string print_loop decimal inet_pton inet_ntop file_lines trim_front trim_back trim
    normalize_value line_entry db_load
file-loads = refl

policy-IsValid : IsValid policy
policy-IsValid = db_load-IsValid (some file) policy file-loads

db_load-db_text_example : db_load (some (db_text policy)) ≡ some policy
db_load-db_text_example = db_load-db_text policy policy-IsValid

abbrev disk : Disk
disk = record { conf = some file; tmp = none }

saved-reported : is_reported saved ≡ true
unfolding is_reported
saved-reported = refl

rename-reported : is_reported rename_failed ≡ true
unfolding is_reported
rename-reported = refl

abbrev addition : Changed agreeable
addition = direct_add empty_router cfg saved disk (codes "ip") (codes "192.168.0.0/16")

addition-succeeds : is_neg addition.0 ≡ false
unfolding c_string print_loop decimal skip_space read_digits strtoul inet_pton inet_ntop is_reply
    take_reply drain ros_command file_lines trim_front trim_back trim normalize_value line_entry
    db_load db_text db_save db_find id_collect_cb first_auto_cb direct_sync direct_add
addition-succeeds = refl

direct_add_good_example :
    (r : Read disk (codes "ip") (codes "192.168.0.0/16")) × Stored empty_router addition.2 cfg
      addition.1
      (added r.db r.kind r.value)
direct_add_good_example =
    direct_add_good empty_router cfg saved disk saved-reported (codes "ip") (codes "192.168.0.0/16")
      addition.0 addition.1 addition.2 refl addition-succeeds

abbrev removal : Changed agreeable
removal = direct_remove empty_router cfg saved disk (codes "domain") (codes "www.example.org")

removal-succeeds : is_neg removal.0 ≡ false
unfolding c_string print_loop decimal skip_space read_digits strtoul inet_pton inet_ntop is_reply
    take_reply drain ros_command file_lines trim_front trim_back trim normalize_value line_entry
    db_load db_text db_save db_find remove_at id_collect_cb first_auto_cb direct_sync direct_remove
removal-succeeds = refl

direct_remove_good_example :
    Dropped empty_router cfg disk (codes "domain") (codes "www.example.org") removal.1 removal.2
direct_remove_good_example =
    direct_remove_good empty_router cfg saved disk saved-reported (codes "domain")
      (codes "www.example.org") removal.0 removal.1 removal.2 refl removal-succeeds

changes-Whole_example :
    Whole disk (direct_add empty_router cfg rename_failed disk (codes "ip") (codes "10.0.0.2")).1
    × Whole disk
        (direct_remove empty_router cfg rename_failed disk (codes "ip") (codes "10.0.0.2")).1
changes-Whole_example =
    changes-Whole empty_router cfg rename_failed disk rename-reported (codes "ip")
      (codes "10.0.0.2")

abbrev sync : ℤ × Session agreeable
sync = direct_sync empty_router cfg (some file)

sync-succeeds : is_neg sync.0 ≡ false
unfolding c_string inet_pton is_reply take_reply drain ros_command file_lines trim_front trim_back
    trim normalize_value line_entry db_load id_collect_cb first_auto_cb direct_sync
sync-succeeds = refl

direct_sync_good_example :
    (db : Db) × (first : Option Text) × (db_load (some file) ≡ some db)
    × Adds (wanted cfg first db) empty_router sync.1
direct_sync_good_example =
    direct_sync_good cfg empty_router sync.1 (some file) sync.0 refl sync-succeeds

SentOnly-direct_sync_example : SentOnly (IsDirect cfg) empty_router sync.1
SentOnly-direct_sync_example = SentOnly-direct_sync cfg empty_router (some file)

abbrev cleared : ℤ × Session bypassing
cleared = remove_matching bypassed listed_addresses

cleared-succeeds : is_neg cleared.0 ≡ false
unfolding is_reply take_reply drain ros_command parse_kind id_collect_cb remove_matching
cleared-succeeds = refl

remove_matching-Removed_example : Removed listed_addresses bypassed cleared.1
remove_matching-Removed_example =
    remove_matching-Removed listed_addresses bypassed cleared.1 cleared.0 refl cleared-succeeds

table_given : is_empty cfg.table ≡ false
unfolding codes
table_given = refl

-- The router shows objects to remove, and answers the rest with `!done`.
bypassing-Answered : (w : Bool) (words : List Text) → Answered (bypassing.exchange w words).1
unfolding str_eq codes is_done is_trap is_fatal is_reply
bypassing-Answered w words =
    elim (Bool-cases (str_eq (word 0 words) (codes "/ip/firewall/address-list/print"))) [
      | inl e ↦ rw e (goes_on refl refl refl (goes_on refl refl refl (ends_here refl refl refl)))
      | inr e ↦ rw e (ends_here refl refl refl)
    ]

direct_sync-succeeds_example : (direct_sync bypassed cfg (some file)).0 ≡ pos 0
direct_sync-succeeds_example =
    direct_sync-succeeds bypassing-Answered cfg table_given bypassed (some file) policy
      (record { opened = refl; nothing_pending = refl }) file-loads
