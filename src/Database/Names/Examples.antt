-- ===== src/Database/Names/Examples.antt =====
-- Tests of the names, and the theorem at a concrete history.
use omarchy_whatsapp.Prelude.{List, String, [], false, refl, some, ◌∷◌, ◌≡◌}
use omarchy_whatsapp.Prelude.Int.{pos}
use omarchy_whatsapp.Prelude.Trim.{is_empty, trim}
use omarchy_whatsapp.Database.{Database, chat_name_history}
use omarchy_whatsapp.Database.Examples.{empty_history}
use omarchy_whatsapp.Database.Names.{contact_name, update_contact_name_into}
use omarchy_whatsapp.Database.Names.AddressBook.{
  NameCall, address_book, address_book_stays, contact, run,
}

-- A chat that is known by its history.
abbrev one_chat : Database (List String)
one_chat = record empty_history {
  chats =
      record {
        jid = "a@s";
        name = "a";
        name_source = chat_name_history;
        last_message = "";
        last_timestamp = pos 1;
        unread = 0;
        is_group = false;
      }
      ∷ [];
}

pushed_name :
    (update_contact_name_into "a@s" " Ann " 0 one_chat).0.contacts
    ≡ record { jid = "a@s"; name = "Ann"; source = 0 } ∷ []
unfolding update_contact_name_into trim
pushed_name = refl

-- A push name comes, and the address book names somebody else.
abbrev two_names : List NameCall
two_names = contact "a@s" "ann" ∷ address_book "b@s" "Bob" ∷ []

ann_is_given : is_empty (trim "Ann Lee") ≡ false
unfolding trim
ann_is_given = refl

address_book_stays_example :
    contact_name "a@s" (run two_names (update_contact_name_into "a@s" "Ann Lee" 1 one_chat).0)
    ≡ some (trim "Ann Lee")
address_book_stays_example =
    address_book_stays "a@s" "Ann Lee" two_names one_chat ann_is_given refl refl
