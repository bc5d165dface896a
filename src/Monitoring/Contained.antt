-- ===== src/Monitoring/Contained.antt =====
-- A check of one site never throws.

use pulse_keeper.Domain.{CheckSource}
use pulse_keeper.Async.{try_catch, ◌>>=◌}
use pulse_keeper.Async.Rules.{NoThrow, NoThrow->>=, NoThrow-try_catch}
use pulse_keeper.Store.{Config, Site}
use pulse_keeper.Store.Calls.{read_clock}
use pulse_keeper.Monitoring.{check_site, contain}

contain-NoThrow : (site : Site) → NoThrow (contain site)
unfolding contain read_clock ◌>>=◌
contain-NoThrow site =
    λ w. NoThrow->>= (try_catch _ _) _ (NoThrow-try_catch _ _ (λ e. tt)) (λ _. tt)

-- Whatever the network, the resolver, the channels and the database do, the check of a site
-- returns a result and never throws.
pub check_site-NoThrow :
    (config : Config) (source : CheckSource) (site : Site) → NoThrow (check_site config source site)
unfolding check_site
check_site-NoThrow config source site = NoThrow-try_catch _ _ (λ e. contain-NoThrow site)
