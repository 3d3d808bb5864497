-- ===== src/Samples.antt =====
-- A small database, and a request, on which the tests run.
use geek_interview.Base.{ℕ, ◌+◌, ◌*◌, refl, Option, none, some, List, [], ◌∷◌, arith, leb, ◌==◌}
use geek_interview.Domain.{reserved}
use geek_interview.Errors.{DriverError}
use geek_interview.Tables.{find_by, count_where}
use geek_interview.Store
use geek_interview.Store.{
  Db, User, customer, operator, Concert, draft, published, TicketCategory, Inventory, Voucher,
  percent, Booking, BookingItem, Redemption, BookingResponse,
}
use geek_interview.Money.{cents_to_decimal}
use geek_interview.Booking.Request.{Texts, NormalizedItem, CreateBookingDto, whole}
use geek_interview.Booking.Create.{Draw}
use geek_interview.Booking.Lifecycle.{World, Clock}
use geek_interview.Booking.Invariant.{Inv}
use geek_interview.Operation.Concerts.{CreateTicketCategoryDto}
use geek_interview.Operation.Vouchers.{CreateVoucherDto}

abbrev pub held_booking : Booking
held_booking = record {
  id = 50;
  booking_code = 51;
  user_id = 2;
  concert_id = 10;
  status = reserved;
  subtotal = 37035;
  discount_amount = 3704;
  final_amount = 33331;
  expires_at = 1000;
  created_at = 10;
  updated_at = 10;
}

abbrev pub stock_row : Inventory
stock_row = record { ticket_category_id = 20; total_quantity = 10; available_quantity = 7 }

abbrev pub ten_percent : Voucher
ten_percent = record {
  id = 30;
  code = 31;
  discount_type = percent;
  discount_value = 1000;
  usage_limit = 5;
  used_count = 1;
  status = Store.active;
  starts_at = 0;
  expires_at = 5000;
  applicable_concert_id = some 10;
  applicable_ticket_category_id = none;
}

abbrev pub sample : Db
sample = record {
  users = record { id = 1; role = customer } ∷ record { id = 2; role = customer } ∷ [];
  concerts = record { id = 10; slug = 11; name = 12; status = published; starts_at = 1000000 } ∷ [];
  ticket_categories = record { id = 20; concert_id = 10; code = 21; name = 22; price = 12345 } ∷ [];
  inventories = stock_row ∷ [];
  vouchers = ten_percent ∷ [];
  bookings = held_booking ∷ [];
  booking_items =
      record {
        id = 55;
        booking_id = 50;
        ticket_category_id = 20;
        quantity = 3;
        unit_price = 12345;
        line_total = 37035;
      }
      ∷ [];
  redemptions =
      record {
        voucher_id = 30;
        user_id = 2;
        booking_id = 50;
        status = Store.reserved;
        released_at = none;
        released_reason = none;
      }
      ∷ [];
  idempotency_records = [];
  history = [];
}

pub sample-Inv : Inv sample
unfolding find_by count_where
sample-Inv = record {
  stock = record {
    identified = record { unique = (refl, tt); one = λ i j k x y ex ey mx my. ground arith };
    unique = (refl, tt);
    known = (λ e. ground arith, tt);
    owned = (λ e. ground arith, tt);
    stocked = λ c i e. ground arith;
  };
  quota = record {
    unique_vouchers = (refl, tt);
    unique_redemptions = (refl, tt);
    known = (λ e. ground arith, tt);
    counted = λ id v e. ground arith;
    limited = λ id v e. ground arith;
    single = λ v u. ground arith;
  };
}

abbrev pub weight : List NormalizedItem → ℕ
weight [] = 0
weight (i ∷ items) = i.ticket_category_id * i.quantity + weight items

abbrev pub texts : Texts
texts = record {
  trim = λ n. n;
  lower = λ n. n;
  upper = λ n. n;
  is_empty = λ n. n == 0;
  locale_le = leb;
  digest = λ i. i.concert_id + weight i.items;
}

abbrev pub two_tickets : CreateBookingDto
two_tickets = record {
  concert_id = 11;
  items = record { ticket_category_id = 20; quantity = whole 2 } ∷ [];
  voucher_code = some 31;
}

abbrev pub three_tickets : CreateBookingDto
three_tickets = record {
  concert_id = 11;
  items = record { ticket_category_id = 20; quantity = whole 3 } ∷ [];
  voucher_code = none;
}

abbrev pub draw : Draw
draw = record {
  db_now = 100;
  date_now = 100;
  voucher_date = 100;
  voucher_later = 100;
  claim_id = 70;
  booking_id = 60;
  booking_code = 61;
  item_id = λ n. 80 + n;
}

abbrev pub no_faults : ℕ → Option DriverError
no_faults n = none

abbrev pub clock_at : ℕ → Clock
clock_at n = record { db_now = n; date_now = n }

abbrev pub world_at : ℕ → World
world_at n = record { faults = no_faults; clock = λ _. clock_at n }

-- What a request for two tickets leaves.
abbrev pub new_response : BookingResponse
new_response = record {
  id = 60;
  booking_code = 61;
  concert = record { id = 10; slug = 11; name = 12 };
  status = reserved;
  subtotal = cents_to_decimal 24690;
  discount_amount = cents_to_decimal 2469;
  final_amount = cents_to_decimal 22221;
  expires_at = 600100;
  created_at = 100;
  updated_at = 100;
  items =
      record {
        id = 80;
        ticket_category_id = 20;
        category_code = 21;
        category_name = 22;
        quantity = 2;
        unit_price = cents_to_decimal 12345;
        line_total = cents_to_decimal 24690;
      }
      ∷ [];
}

abbrev pub booked : Db
booked = record sample {
  inventories = record stock_row { available_quantity = 5 } ∷ [];
  vouchers = record ten_percent { used_count = 2 } ∷ [];
  bookings =
      record {
        id = 60;
        booking_code = 61;
        user_id = 1;
        concert_id = 10;
        status = reserved;
        subtotal = 24690;
        discount_amount = 2469;
        final_amount = 22221;
        expires_at = 600100;
        created_at = 100;
        updated_at = 100;
      }
      ∷ sample.bookings;
  booking_items =
      record {
        id = 80;
        booking_id = 60;
        ticket_category_id = 20;
        quantity = 2;
        unit_price = 12345;
        line_total = 24690;
      }
      ∷ sample.booking_items;
  redemptions =
      record {
        voucher_id = 30;
        user_id = 1;
        booking_id = 60;
        status = Store.reserved;
        released_at = none;
        released_reason = none;
      }
      ∷ sample.redemptions;
  history =
      record {
        booking_id = 60;
        from_status = none;
        to_status = reserved;
        changed_by = some 1;
        change_source = Store.customer_api;
        reason = Store.booking_created;
      }
      ∷ [];
}

abbrev pub answered : Db
answered = record booked {
  idempotency_records =
      record {
        id = 70;
        user_id = 1;
        idempotency_key = 9;
        request_hash = 51;
        status = Store.completed;
        response_status = some 201;
        response_body = some new_response;
      }
      ∷ [];
}

-- A concert that is not public yet, and an operator.
abbrev pub draft_concert : Concert
draft_concert = record { id = 40; slug = 41; name = 42; status = draft; starts_at = 9000 }

abbrev pub staffed : Db
staffed = record sample {
  users = record { id = 3; role = operator } ∷ sample.users;
  concerts = draft_concert ∷ sample.concerts;
}

pub staffed-Inv : Inv staffed
staffed-Inv = record {
  stock = record {
    identified = sample-Inv.stock.identified;
    unique = sample-Inv.stock.unique;
    known = sample-Inv.stock.known;
    owned = sample-Inv.stock.owned;
    stocked = sample-Inv.stock.stocked;
  };
  quota = sample-Inv.quota;
}

-- A category of a hundred tickets at 50.00 for that concert.
abbrev pub hundred_tickets : CreateTicketCategoryDto
hundred_tickets = record { code = 91; name = 92; price = 5000; total_quantity = 100 }

abbrev pub opened : Db
opened = record staffed {
  ticket_categories =
      record { id = 90; concert_id = 40; code = 91; name = 92; price = 5000 }
      ∷ staffed.ticket_categories;
  inventories =
      record { ticket_category_id = 90; total_quantity = 100; available_quantity = 100 }
      ∷ staffed.inventories;
}

abbrev pub released_concert : Db
released_concert = record opened {
  concerts = record draft_concert { status = published } ∷ sample.concerts;
}

-- Five percent for the first ten bookings.
abbrev pub five_percent : CreateVoucherDto
five_percent = record {
  code = 95;
  discount_type = percent;
  discount_value = 500;
  usage_limit = 10;
  starts_at = 100;
  expires_at = 8000;
  applicable_concert_id = some 40;
  applicable_ticket_category_id = none;
}
