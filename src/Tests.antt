-- ===== src/Tests.antt =====
-- The theorems at concrete states of the shop.
mod Data
mod Orders
mod Races
mod Plans
mod Desk
mod Selling
mod Live
mod Checkout
mod Accounts
