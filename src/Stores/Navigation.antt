-- ===== src/Stores/Navigation.antt =====
-- src/stores/navigation.rs, and the commands and the query of src/app on it: where a client is to go.

use devstack.Common.{ℕ, String, Bool, true, false, Option, none, some, str_key, nat_key}

pub record NavigationIntent : Type 0 where
  pub run_id : Option String
  pub service : Option String
  pub search : Option String
  pub level : Option String
  pub stream : Option String
  pub since : Option String
  pub last : Option ℕ
  pub created_at : String

pub record SetNavigationIntentRequest : Type 0 where
  pub run_id : Option String
  pub service : Option String
  pub search : Option String
  pub level : Option String
  pub stream : Option String
  pub since : Option String
  pub last : Option ℕ

-- The value behind the mutex.
abbrev pub NavigationStore : Type 0
NavigationStore = Option NavigationIntent

unfoldable pub new_navigation : NavigationStore
new_navigation = none

unfoldable pub set_intent : NavigationIntent → NavigationStore → NavigationStore
set_intent intent store = some intent

unfoldable pub get_intent : NavigationStore → Option NavigationIntent
get_intent store = store

unfoldable pub clear_intent : NavigationStore → Bool × NavigationStore
clear_intent none = (false, none)
clear_intent (some intent) = (true, none)

unfoldable pub update_intent :
    (NavigationIntent → NavigationIntent) → NavigationStore → Bool × NavigationStore
update_intent updater none = (false, none)
update_intent updater (some intent) = (true, some (updater intent))

unfoldable pub set_navigation_intent :
    String → SetNavigationIntentRequest → NavigationStore → NavigationIntent × NavigationStore
set_navigation_intent now request store =
    let intent : NavigationIntent = record {
      run_id = request.run_id;
      service = request.service;
      search = request.search;
      level = request.level;
      stream = request.stream;
      since = request.since;
      last = request.last;
      created_at = now;
    } in
    (intent, set_intent intent store)

unfoldable pub clear_navigation_intent : NavigationStore → Bool × NavigationStore
clear_navigation_intent store = clear_intent store

unfoldable pub get_navigation_intent : NavigationStore → Option NavigationIntent
get_navigation_intent store = get_intent store
